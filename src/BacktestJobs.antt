-- ===== src/BacktestJobs.antt =====
-- packages/backtest_jobs: one job for each request, in memory.
pub mod Job
pub mod Service
pub mod Canonical
pub mod Links
pub mod Calls
pub mod Once
pub mod Scope
mod Examples
