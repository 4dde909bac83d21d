-- ===== src/Evidence.antt =====
-- packages/evidence_ledger: references to evidence, their verification and their store in memory, with
-- the handlers of services/api/routes/evidence.py.
pub mod Models
pub mod Verifier
pub mod Repository
pub mod Verified
pub mod Calls
mod Examples
