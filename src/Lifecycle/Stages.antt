-- ===== src/Lifecycle/Stages.antt =====
-- The promotions of packages/lifecycle as a state machine: which stages can be reached, and what
-- evidence a version at a stage has shown on its way.
use nautilus_builder.Prelude.{
  ℕ, suc, ◌+◌, ◌≤◌, Bool, true, false, ◌&&◌, ◌||◌, ◌↔◌, ◌<◌, List, [], ◌∷◌, Result, ok, err, ltb,
  ltb→lt, ap, Bool-cases, ◌≡◌, inl, inr, arith,
}
use nautilus_builder.Lifecycle.{
  LifecycleStage, draft, testing, beta, final, PromotionEvidence, Error, promote_stage,
}

-- One request for a promotion: the stage that is asked for, and the evidence that comes with it.
pub record Request : Type 0 where
  pub to_stage : LifecycleStage
  pub evidence : PromotionEvidence

abbrev settle : LifecycleStage → Result Error LifecycleStage → LifecycleStage
settle stage (ok next) = next
settle stage (err _) = stage

-- A version goes through requests, and a refused one leaves it where it is.
unfoldable pub promote_all : LifecycleStage → List Request → LifecycleStage
promote_all stage [] = stage
promote_all stage (r ∷ rs) =
    promote_all (settle stage (promote_stage stage r.to_stage r.evidence)) rs

abbrev pub rank : LifecycleStage → ℕ
rank draft = 0
rank testing = 1
rank beta = 2
rank final = 3

abbrev asks : LifecycleStage → LifecycleStage → Bool
asks testing testing = true
asks beta beta = true
asks final final = true
asks _ _ = false

-- What the evidence of a request has to show for the stage that it asks for.
abbrev pub shows : LifecycleStage → PromotionEvidence → Bool
shows draft e = false
shows testing e = e.validation_passed
shows beta e = e.backtest_succeeded && e.no_lookahead_passed
shows final e = e.shadow_evidence && e.gate_compatibility && e.manual_approval

-- Some request asked for the stage, with its evidence.
abbrev pub shown : LifecycleStage → List Request → Bool
shown stage [] = false
shown stage (r ∷ rs) = (asks r.to_stage stage && shows stage r.evidence) || shown stage rs

granted :
    (from_stage to_stage : LifecycleStage) (e : PromotionEvidence)
    → promote_stage from_stage to_stage e ≡ ok to_stage
    → (rank to_stage ≡ suc (rank from_stage)) × (shows to_stage e ≡ true)
unfolding promote_stage
granted draft testing e h = ground arith
granted testing beta e h = ground arith
granted beta final e h = ground arith
granted _ _ e h = cc

grant :
    (from_stage to_stage : LifecycleStage) (e : PromotionEvidence)
    → rank to_stage ≡ suc (rank from_stage)
    → shows to_stage e ≡ true
    → promote_stage from_stage to_stage e ≡ ok to_stage
unfolding promote_stage
grant draft t e r s = ground arith
grant testing t e r s = ground arith
grant beta t e r s = ground arith
grant final t e r s = ground arith

-- A promotion is granted exactly for the next stage, with the evidence that this stage asks for:
-- validation for testing; a backtest and no lookahead for beta; shadow evidence, gate compatibility
-- and manual approval for final.
pub promote_stage_iff :
    (from_stage to_stage : LifecycleStage) (e : PromotionEvidence)
    → (promote_stage from_stage to_stage e ≡ ok to_stage)
      ↔ ((rank to_stage ≡ suc (rank from_stage)) × (shows to_stage e ≡ true))
promote_stage_iff f t e = (granted f t e, λ (r, s). grant f t e r s)

-- A request either leaves the stage, or moves it to the stage that it asks for, the next one.
step_lem :
    (s u : LifecycleStage) (r : Request)
    → rank s < rank u
    → rank u ≤ rank (settle s (promote_stage s r.to_stage r.evidence))
    → (asks r.to_stage u && shows u r.evidence) ≡ true
unfolding promote_stage
step_lem draft u r h k = ground arith
step_lem testing u r h k = ground arith
step_lem beta u r h k = ground arith
step_lem final u r h k = ground arith

passed_through :
    (s u : LifecycleStage) (rs : List Request)
    → rank s < rank u
    → rank u ≤ rank (promote_all s rs)
    → shown u rs ≡ true
unfolding promote_all
passed_through s u [] h k = absurd (omega arith)
passed_through s u (r ∷ rs) h k =
    let s' = settle s (promote_stage s r.to_stage r.evidence) in
    elim (Bool-cases (ltb (rank s') (rank u))) [
      | inl later ↦ ground (arith, passed_through s' u rs (ltb→lt _ _ later) k)
      | inr now ↦ ground (arith, step_lem s u r h)
    ]

-- A draft that has become final by any requests has shown, in one request each, the evidence of all
-- three stages.
pub final_shows_all :
    (rs : List Request)
    → promote_all draft rs ≡ final
    → (shown testing rs ≡ true) × (shown beta rs ≡ true) × (shown final rs ≡ true)
final_shows_all rs e =
    let at_end : rank (promote_all draft rs) ≡ 3 = ap rank e in
    (
      passed_through draft testing rs (omega arith) (omega arith),
      passed_through draft beta rs (omega arith) (omega arith),
      passed_through draft final rs (omega arith) (omega arith),
    )

-- No request moves a version back, or past a stage.
pub promote_stage_mono :
    (s : LifecycleStage) (r : Request)
    → let s' = settle s (promote_stage s r.to_stage r.evidence) in
      (rank s ≤ rank s') × (rank s' ≤ rank s + 1)
unfolding promote_stage
promote_stage_mono draft r = ground arith
promote_stage_mono testing r = ground arith
promote_stage_mono beta r = ground arith
promote_stage_mono final r = ground arith
