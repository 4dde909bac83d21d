-- ===== src/RuntimeEvents.antt =====
-- packages/runtime_events: the events of jobs, appended and replayed.
pub mod Stream
pub mod Replay
mod Examples
