-- ===== src/Lifecycle/Examples.antt =====
-- The theorems on packages/lifecycle at a version that becomes final in three requests.
use nautilus_builder.Prelude.{true, List, [], ◌∷◌, ◌≡◌, refl}
use nautilus_builder.Lifecycle.{
  LifecycleStage, testing, beta, final, PromotionEvidence, promote_stage,
}
use nautilus_builder.Lifecycle.Stages.{Request, shown, promote_all, final_shows_all}

abbrev all_evidence : PromotionEvidence
all_evidence = record {
  validation_passed = true;
  backtest_succeeded = true;
  no_lookahead_passed = true;
  shadow_evidence = true;
  gate_compatibility = true;
  manual_approval = true;
}

abbrev to : LifecycleStage → Request
to stage = record { to_stage = stage; evidence = all_evidence }

-- The request for final comes too early at first.
abbrev requests : List Request
requests = to testing ∷ to final ∷ to beta ∷ to final ∷ []

final_shows_all_example :
    (shown testing requests ≡ true) × (shown beta requests ≡ true) × (shown final requests ≡ true)
unfolding promote_all promote_stage
final_shows_all_example = final_shows_all requests refl
