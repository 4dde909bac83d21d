-- ===== src/Workflow.antt =====
-- packages/workflow_spine: strategies, their tested versions, results and suggestions in memory, the
-- events that tell of them and the read model that follows these.
pub mod Models
pub mod Repository
pub mod Service
pub mod Projection
pub mod Calls
pub mod Records
pub mod Links
pub mod Progress
pub mod Follows
mod Examples
