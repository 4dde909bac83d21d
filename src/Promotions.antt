-- ===== src/Promotions.antt =====
-- packages/promotions: the promotion gate, the evidence policy, the allowed modes with the ledger
-- entry, and the service that makes promotion requests.
pub mod Gate
pub mod Policy
pub mod Modes
pub mod GateLaws
pub mod Service
pub mod Evidence
mod Examples
