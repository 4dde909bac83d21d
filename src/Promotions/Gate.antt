-- ===== src/Promotions/Gate.antt =====
-- packages/promotions/gate.py
use Prim.Native.String.{◌++◌ as ◌<>◌}
use nautilus_builder.Prelude.{
  Bool, true, false, not, ◌&&◌, ◌||◌, String, List, ◌==◌, string_eq, if◌then◌else◌,
}
use nautilus_builder.Prelude.Text.{truthy}

pub data PromotionLevel : Type 0 where
  draft validated compiled backtested_synthetic backtested_catalog : PromotionLevel
  shadow_signal_preview paper_ready live_candidate_external_only : PromotionLevel

-- `target_level.value`
abbrev pub level_value : PromotionLevel → String
level_value draft = "draft"
level_value validated = "validated"
level_value compiled = "compiled"
level_value backtested_synthetic = "backtested_synthetic"
level_value backtested_catalog = "backtested_catalog"
level_value shadow_signal_preview = "shadow_signal_preview"
level_value paper_ready = "paper_ready"
level_value live_candidate_external_only = "live_candidate_external_only"

pub record PromotionEvidenceSet : Type 0 where
  pub compile_artifact_ref : String
  pub validation_result_ref : String
  pub replay_manifest_ref : String
  pub backtest_result_ref : String
  pub dataset_manifest_refs : List String
  pub manual_review_ref : String
  pub data_tester_ref : String
  pub exec_tester_ref : String
  pub reconciliation_ref : String
  pub is_synthetic_backtest : Bool

pub record PromotionResult : Type 0 where
  pub allowed : Bool
  pub promotion_level : PromotionLevel
  pub blocking_reason_code : String
  pub blocking_evidence_id : String
  pub human_readable_message : String
  pub machine_readable_reason_code : String

abbrev pub blocked : PromotionLevel → String → String → PromotionResult
blocked level reason message = record {
  allowed = false;
  promotion_level = level;
  blocking_reason_code = reason;
  blocking_evidence_id = "";
  human_readable_message = message;
  machine_readable_reason_code = reason;
}

abbrev pub granted : PromotionLevel → String → PromotionResult
granted level message = record {
  allowed = true;
  promotion_level = level;
  blocking_reason_code = "";
  blocking_evidence_id = "";
  human_readable_message = message;
  machine_readable_reason_code = "";
}

-- `target_level.value in (…)`
abbrev needs_compile : PromotionLevel → Bool
needs_compile level =
    level_value level == "compiled"
    || level_value level == "backtested_synthetic"
    || level_value level == "backtested_catalog"
    || level_value level == "shadow_signal_preview"
    || level_value level == "paper_ready"

abbrev is_live_candidate : PromotionLevel → Bool
is_live_candidate live_candidate_external_only = true
is_live_candidate _ = false

abbrev is_catalog : PromotionLevel → Bool
is_catalog backtested_catalog = true
is_catalog _ = false

abbrev is_shadow : PromotionLevel → Bool
is_shadow shadow_signal_preview = true
is_shadow _ = false

-- `PromotionGate.evaluate`
unfoldable pub evaluate : PromotionEvidenceSet → PromotionLevel → PromotionResult
evaluate e level =
    if is_live_candidate level
    then blocked level "LIVE_READINESS_OUT_OF_SCOPE"
        "Live candidate readiness requires external Daedalus/DataTester/ExecTester evidence"
    else if needs_compile level && not (truthy e.compile_artifact_ref)
    then blocked level "COMPILE_ARTIFACT_MISSING" "Compile artifact reference is required"
    else if is_catalog level && not (truthy e.backtest_result_ref)
    then blocked level "BACKTEST_RESULT_MISSING"
        "Backtest result reference is required for catalog level"
    else if is_catalog level && e.is_synthetic_backtest
    then blocked level "SYNTHETIC_BACKTEST_CANNOT_SATISFY_CATALOG"
        "Synthetic backtest cannot satisfy catalog backtest requirement"
    else if is_shadow level && not (truthy e.validation_result_ref)
    then blocked level "VALIDATION_RESULT_MISSING" "Validation result reference is required"
    else if is_shadow level && not (truthy e.backtest_result_ref)
    then blocked level "BACKTEST_RESULT_MISSING" "Backtest result reference is required"
    else if is_shadow level
    then granted level "Shadow signal preview allowed with verified evidence"
    else granted level ("Promotion to " <> (level_value level <> " allowed"))
