-- ===== src/ExecutionLane.antt =====
-- packages/execution_lane: the strategy-decoupled execution lane. The models with their validators,
-- the in-memory service, and what is proved of them.
pub mod Errors
pub mod Profile
pub mod Command
pub mod Report
pub mod Slots
pub mod EnvFile
pub mod EnvLines
pub mod EnvRound
pub mod Credentials
pub mod SlotValues
pub mod Service
pub mod Views
pub mod Authority
pub mod Invariant
pub mod Run
pub mod Queue
pub mod Claims
pub mod Enqueue
pub mod Resend
pub mod Eviction
pub mod RuntimePlan
pub mod PlanBuild
pub mod Readiness
pub mod PlanAuthority
pub mod Runner
pub mod NodeOrder
pub mod NodeCalls
mod Fixtures
mod Examples
mod CredentialExamples
mod PlanExamples
mod RunnerExamples
