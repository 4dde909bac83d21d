-- ===== src/Promotions/Modes.antt =====
-- The promotion modes and the ledger entry of packages/promotions/models.py.
use nautilus_builder.Prelude.{
  Option, String, List, [], ◌∷◌, Result, ok, err, ◌>>=◌, ◌==◌, string_eq, if◌then◌else◌,
}
use nautilus_builder.Promotions.Policy.{elem}

pub data AllowedPromotionMode : Type 0 where
  shadow_only signal_preview_only paper_replay_candidate : AllowedPromotionMode

abbrev pub mode_value : AllowedPromotionMode → String
mode_value shadow_only = "shadow_only"
mode_value signal_preview_only = "signal_preview_only"
mode_value paper_replay_candidate = "paper_replay_candidate"

-- `ForbiddenPromotionMode`, with its two messages
pub data ForbiddenPromotionMode : Type 0 where
  forbidden unknown : String → ForbiddenPromotionMode

abbrev forbidden_modes : List String
forbidden_modes =
    "live_trade_authority" ∷ "direct_trade_action_authority" ∷ "direct_submit_order_authority" ∷ []

unfoldable pub validate_promotion_mode : String → Result ForbiddenPromotionMode AllowedPromotionMode
unfolding elem
validate_promotion_mode mode =
    if elem mode forbidden_modes
    then err (forbidden mode)
    else if mode == "shadow_only"
    then ok shadow_only
    else if mode == "signal_preview_only"
    then ok signal_preview_only
    else if mode == "paper_replay_candidate"
    then ok paper_replay_candidate
    else err (unknown mode)

-- `execution_authority` is `Literal[False]`, so it has no field here.
pub record PromotionLedgerEntry : Type 0 where
  pub strategy_id : String
  pub spec_version_id : String
  pub promotion_mode : String
  pub strategy_spec_hash : String
  pub compiler_hash : String
  pub policy_hash : String
  pub dataset_hash : String
  pub replay_report_hash : String
  pub artifact_hash : String
  pub artifact_uri : String
  pub requested_by : String
  pub approved_by : Option String

-- The construction of an entry, with its validator of the mode.
unfoldable pub ledger_entry :
    PromotionLedgerEntry → Result ForbiddenPromotionMode PromotionLedgerEntry
unfolding validate_promotion_mode
ledger_entry e = do _ ← validate_promotion_mode e.promotion_mode; ok e
