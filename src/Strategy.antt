-- ===== src/Strategy.antt =====
-- Strategy specifications: packages/strategy_spec, their validation by packages/strategy_validation and
-- their evaluation over prices by packages/nautilus_rule_graph.
pub mod Spec
pub mod Policy
pub mod Validator
pub mod Indicators
pub mod Evaluator
pub mod Forbidden
pub mod Occurs
pub mod Accepted
pub mod Window
pub mod Average
pub mod Sound
mod Examples
