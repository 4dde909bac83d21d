-- ===== src/Promotions/GateLaws.antt =====
-- What the gate grants without evidence, and that the modes of packages/promotions/models.py and of
-- packages/promotions/evidence_policy.py agree.
use nautilus_builder.Prelude.{true, false, String, ok, string_eq, ◌≡◌, ◌↔◌, refl, arith, eq_iff}
use nautilus_builder.Prelude.Text.{truthy}
use nautilus_builder.Promotions.Gate.{paper_ready, PromotionEvidenceSet, evaluate}
use nautilus_builder.Promotions.Policy.{
  elem, get_required_evidence, is_forbidden_mode, get_v5_required_evidence, v5_required_evidence,
}
use nautilus_builder.Promotions.Modes.{
  AllowedPromotionMode, shadow_only, signal_preview_only, paper_replay_candidate, mode_value,
  validate_promotion_mode,
}

-- The policy asks for a data tester's report and a manual review before a version is paper ready; the
-- gate allows that level to every evidence set with a compile artifact, whatever else it lacks.
pub paper_ready_without_evidence :
    (e : PromotionEvidenceSet)
    → truthy e.compile_artifact_ref ≡ true
    → ((evaluate e paper_ready).allowed ≡ true)
      × (elem "data_tester_report" (get_required_evidence paper_ready) ≡ true)
      × (elem "manual_review" (get_required_evidence paper_ready) ≡ true)
      × (elem "real_dataset_backtest_result" (get_required_evidence paper_ready) ≡ true)
unfolding elem get_required_evidence evaluate
paper_ready_without_evidence e h = (ground arith, refl, refl, refl)

mode_of :
    (m : String) (a : AllowedPromotionMode) → validate_promotion_mode m ≡ ok a → m ≡ mode_value a
unfolding validate_promotion_mode
mode_of m a h = ground (
  arith,
  eq_iff m "shadow_only",
  eq_iff m "signal_preview_only",
  eq_iff m "paper_replay_candidate",
)

of_mode : (a : AllowedPromotionMode) → validate_promotion_mode (mode_value a) ≡ ok a
unfolding validate_promotion_mode
of_mode shadow_only = refl
of_mode signal_preview_only = refl
of_mode paper_replay_candidate = refl

-- A mode is accepted exactly where it is the value of one of the three allowed modes.
pub validate_promotion_mode_iff :
    (m : String) (a : AllowedPromotionMode)
    → (validate_promotion_mode m ≡ ok a) ↔ (m ≡ mode_value a)
validate_promotion_mode_iff m a = (mode_of m a, λ e. rw e (of_mode a))

needs_evidence :
    (a : AllowedPromotionMode)
    → (is_forbidden_mode (mode_value a) ≡ false)
      × (get_v5_required_evidence (mode_value a) ≡ ok (v5_required_evidence (mode_value a)))
      × (elem "validation_report" (v5_required_evidence (mode_value a)) ≡ true)
      × (elem "risk_contract" (v5_required_evidence (mode_value a)) ≡ true)
unfolding get_v5_required_evidence
needs_evidence shadow_only = (refl, refl, refl, refl)
needs_evidence signal_preview_only = (refl, refl, refl, refl)
needs_evidence paper_replay_candidate = (refl, refl, refl, refl)

-- A mode that packages/promotions/models.py accepts is not forbidden by the evidence policy, which
-- lists evidence for it, a validation report and a risk contract among it.
pub validated_mode_needs_evidence :
    (m : String) (a : AllowedPromotionMode)
    → validate_promotion_mode m ≡ ok a
    → (is_forbidden_mode m ≡ false)
      × (get_v5_required_evidence m ≡ ok (v5_required_evidence m))
      × (elem "validation_report" (v5_required_evidence m) ≡ true)
      × (elem "risk_contract" (v5_required_evidence m) ≡ true)
validated_mode_needs_evidence m a h = rw (mode_of m a h) (needs_evidence a)
