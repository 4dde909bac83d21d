-- ===== src/Lifecycle.antt =====
-- packages/lifecycle: the stages of a strategy version, the evidence that each promotion needs, the
-- version strings, and freezing.
pub mod Stages
mod Examples
use nautilus_builder.Prelude.{
  ℕ, Bool, true, false, not, ◌&&◌, Option, none, some, String, Result, ok, err, ◌>>=◌, ◌>>◌,
  raise_if, if◌then◌else◌,
}
use nautilus_builder.Prelude.Text.{decimal}
use Prim.Native.String.{◌++◌ as ◌<>◌}

-- models.py
pub data LifecycleStage : Type 0 where
  draft testing beta final : LifecycleStage

pub record StrategyVersionRecord : Type 0 where
  pub version : String
  pub stage : LifecycleStage
  pub is_frozen : Bool
  pub validation_report_id : Option String
  pub last_backtest_result_id : Option String

abbrev is_draft : LifecycleStage → Bool
is_draft draft = true
is_draft _ = false

abbrev is_final : LifecycleStage → Bool
is_final final = true
is_final _ = false

unfoldable pub is_editable : StrategyVersionRecord → Bool
is_editable v = is_draft v.stage && not v.is_frozen

pub record PromotionEvidence : Type 0 where
  pub validation_passed : Bool
  pub backtest_succeeded : Bool
  pub no_lookahead_passed : Bool
  pub shadow_evidence : Bool
  pub gate_compatibility : Bool
  pub manual_approval : Bool

pub data Error : Type 0 where
  validation_required backtest_required no_lookahead_required : Error
  shadow_required gate_required approval_required : Error
  unsupported_path : LifecycleStage → LifecycleStage → Error

-- promotion_policy.py
unfoldable pub require_promotion_evidence :
    LifecycleStage → LifecycleStage → PromotionEvidence → Result Error (Unit {0})
require_promotion_evidence draft testing e = do
  raise_if (not e.validation_passed) validation_required
  ok tt
require_promotion_evidence testing beta e = do
  raise_if (not e.backtest_succeeded) backtest_required
  raise_if (not e.no_lookahead_passed) no_lookahead_required
  ok tt
require_promotion_evidence beta final e = do
  raise_if (not e.shadow_evidence) shadow_required
  raise_if (not e.gate_compatibility) gate_required
  raise_if (not e.manual_approval) approval_required
  ok tt
require_promotion_evidence from_stage to_stage e = err (unsupported_path from_stage to_stage)

-- state_machine.py
unfoldable pub promote_stage :
    LifecycleStage → LifecycleStage → PromotionEvidence → Result Error LifecycleStage
unfolding require_promotion_evidence
promote_stage from_stage to_stage e = do
  require_promotion_evidence from_stage to_stage e
  ok to_stage

-- versioning.py
abbrev stage_tag : LifecycleStage → String
stage_tag draft = "draft"
stage_tag testing = "test"
stage_tag beta = "beta"
stage_tag final = ""

unfoldable pub bump_stage_version : ℕ → ℕ → ℕ → LifecycleStage → ℕ → String
unfolding decimal
bump_stage_version major minor patch stage iteration =
    let base = decimal major <> ("." <> (decimal minor <> ("." <> decimal patch))) in
    if is_final stage
    then base
    else base <> ("-" <> (stage_tag stage <> ("." <> decimal iteration)))

unfoldable pub freeze_after_backtest_start : StrategyVersionRecord → StrategyVersionRecord
freeze_after_backtest_start v = record v { is_frozen = true }
