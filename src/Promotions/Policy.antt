-- ===== src/Promotions/Policy.antt =====
-- packages/promotions/evidence_policy.py
use nautilus_builder.Prelude.{
  Bool, false, ◌||◌, String, List, [], ◌∷◌, Result, ok, err, ◌==◌, string_eq, if◌then◌else◌,
}
use nautilus_builder.Promotions.Gate.{
  PromotionLevel, draft, validated, compiled, backtested_synthetic, backtested_catalog,
  shadow_signal_preview, paper_ready, live_candidate_external_only,
}

-- `x in xs`
unfoldable pub elem : String → List String → Bool
elem x [] = false
elem x (y ∷ ys) = x == y || elem x ys

-- `REQUIRED_EVIDENCE`, with the default of `get_required_evidence`
unfoldable pub get_required_evidence : PromotionLevel → List String
get_required_evidence validated = "validation_report" ∷ "compile_artifact" ∷ []
get_required_evidence compiled = "validation_report" ∷ "compile_artifact" ∷ []
get_required_evidence backtested_synthetic =
    "validation_report" ∷ "compile_artifact" ∷ "replay_manifest" ∷ "backtest_result" ∷ []
get_required_evidence backtested_catalog =
    "validation_report" ∷ "compile_artifact" ∷ "replay_manifest" ∷ "real_dataset_backtest_result"
    ∷ "catalog_dataset_manifest" ∷ []
get_required_evidence shadow_signal_preview =
    "validation_report" ∷ "compile_artifact" ∷ "backtest_result" ∷ []
get_required_evidence paper_ready =
    "validation_report" ∷ "compile_artifact" ∷ "real_dataset_backtest_result" ∷ "data_tester_report"
    ∷ "manual_review" ∷ []
get_required_evidence live_candidate_external_only =
    "validation_report" ∷ "compile_artifact" ∷ "real_dataset_backtest_result" ∷ "data_tester_report"
    ∷ "exec_tester_report" ∷ "reconciliation_report" ∷ "manual_review" ∷ []
get_required_evidence draft = []

abbrev forbidden_promotion_modes : List String
forbidden_promotion_modes =
    "live_trade_authority" ∷ "direct_trade_action_authority" ∷ "direct_submit_order_authority"
    ∷ "live_execution" ∷ []

unfoldable pub is_forbidden_mode : String → Bool
unfolding elem
is_forbidden_mode mode = elem mode forbidden_promotion_modes

-- `V5_REQUIRED_EVIDENCE.get(mode, [])`
unfoldable pub v5_required_evidence : String → List String
v5_required_evidence mode =
    if mode == "shadow_only"
    then "strategy_spec" ∷ "validation_report" ∷ "compiler_ir" ∷ "risk_contract"
      ∷ "runtime_boundary_report" ∷ []
    else if mode == "signal_preview_only"
    then "strategy_spec" ∷ "validation_report" ∷ "compiler_ir" ∷ "risk_contract"
      ∷ "feature_dependency_graph" ∷ "replay_manifest_template" ∷ "manual_review" ∷ []
    else if mode == "paper_replay_candidate"
    then "strategy_spec" ∷ "validation_report" ∷ "compiler_ir" ∷ "risk_contract"
      ∷ "feature_dependency_graph" ∷ "replay_manifest_template" ∷ "catalog_dataset_manifest"
      ∷ "backtest_result" ∷ "no_lookahead_report" ∷ "gate_compatibility_report" ∷ []
    else []

pub data Error : Type 0 where
  forbidden_mode : String → Error

unfoldable pub get_v5_required_evidence : String → Result Error (List String)
unfolding is_forbidden_mode v5_required_evidence
get_v5_required_evidence mode =
    if is_forbidden_mode mode then err (forbidden_mode mode) else ok (v5_required_evidence mode)
