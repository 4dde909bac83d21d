-- ===== src/ExecutionLane/PlanAuthority.antt =====
-- The authority that a runtime plan of packages/execution_lane/nautilus_runtime.py carries for a
-- command.
use nautilus_builder.Prelude.{
  Bool, true, false, not, ◌||◌, Option, some, String, List, ◌++◌, ok, ◌==◌, string_eq, optional_eq,
  ◌≡◌, ◌∙◌, refl, sym, ap, arith, eq_iff, >>=-eq-ok, passed, passed_eq, Bool-cases, inl, inr,
}
use nautilus_builder.ExecutionLane.Errors.{no_names, gate}
use nautilus_builder.ExecutionLane.Profile.{
  ExecutionLaneProfile, live, mode_eq, present, is_live_enabled,
}
use nautilus_builder.Json.{Payload}
use nautilus_builder.ExecutionLane.Command.{
  command_missing, ExecutionLaneCommand, has_live_authority, is_approved,
  validate_command_authority,
}
use nautilus_builder.ExecutionLane.Authority.{authority-validate_command}
use nautilus_builder.ExecutionLane.RuntimePlan.{
  RuntimePlan, assert_command_matches_profile, is_approved_exactly, live_command_blocked,
  command_blocked_by_mode, command_blocked_reasons, reasons, live_ready,
}
use nautilus_builder.ExecutionLane.PlanBuild.{plan_of, build_trading_node_runtime_plan}
use nautilus_builder.ExecutionLane.Readiness.{no_names-reasons, open_gates, not_paper}

-- The gates of a list that is empty, one after another.
open_gate :
    (test : Bool) (name : String) (more : List String)
    → no_names (gate (not test) name ++ more) ≡ true
    → (test ≡ true) × (no_names more ≡ true)
unfolding gate no_names
open_gate true name more h = (refl, h)
open_gate false name more h = cc

last_gate : (test : Bool) (name : String) → no_names (gate (not test) name) ≡ true → test ≡ true
unfolding gate no_names
last_gate true name h = refl
last_gate false name h = cc

same_texts : (s t : Option String) → (s == t) ≡ true → s ≡ t
same_texts s t h = (optional_eq.equal_iff s t).0 h

blocked_lem :
    (p : ExecutionLaneProfile) (c : ExecutionLaneCommand)
    → no_names (live_command_blocked p c) ≡ true
    → (c.may_submit_order ≡ true)
      × (c.risk_profile_id ≡ p.risk_profile_id)
      × (c.credential_slot_ref ≡ p.credential_slot_ref)
      × (is_approved_exactly c.risk_decision ≡ true)
      × (present c.promotion_approval_id ≡ true)
      × (c.manual_review_id ≡ p.manual_review_id)
      × (c.data_tester_evidence_ref ≡ p.data_tester_evidence_ref)
      × (c.exec_tester_evidence_ref ≡ p.exec_tester_evidence_ref)
      × (c.reconciliation_evidence_ref ≡ p.reconciliation_evidence_ref)
unfolding live_command_blocked
blocked_lem p c h =
    let (_, k₁) = open_gate c.live_trading_enabled _ _ h in
    let (_, k₂) = open_gate c.execution_authority _ _ k₁ in
    let (may_submit, k₃) = open_gate c.may_submit_order _ _ k₂ in
    let (risk, k₄) = open_gate (c.risk_profile_id == p.risk_profile_id) _ _ k₃ in
    let (slot, k₅) = open_gate (c.credential_slot_ref == p.credential_slot_ref) _ _ k₄ in
    let (approved, k₆) = open_gate (is_approved_exactly c.risk_decision) _ _ k₅ in
    let (promoted, k₇) = open_gate (present c.promotion_approval_id) _ _ k₆ in
    let (_, k₈) = open_gate (present c.manual_review_id) _ _ k₇ in
    let (_, k₉) = open_gate (present c.data_tester_evidence_ref) _ _ k₈ in
    let (_, l₁) = open_gate (present c.exec_tester_evidence_ref) _ _ k₉ in
    let (_, l₂) = open_gate (present c.reconciliation_evidence_ref) _ _ l₁ in
    let (review, l₃) = open_gate (c.manual_review_id == p.manual_review_id) _ _ l₂ in
    let (tested, l₄) =
      open_gate (c.data_tester_evidence_ref == p.data_tester_evidence_ref) _ _ l₃ in
    let (exec, l₅) = open_gate (c.exec_tester_evidence_ref == p.exec_tester_evidence_ref) _ _ l₄ in
    let recon = last_gate (c.reconciliation_evidence_ref == p.reconciliation_evidence_ref) _ l₅ in
    (
      may_submit,
      same_texts _ _ risk,
      same_texts _ _ slot,
      approved,
      promoted,
      same_texts _ _ review,
      same_texts _ _ tested,
      same_texts _ _ exec,
      same_texts _ _ recon,
    )

-- What a matched command shares with its profile.
match_lem :
    (p : ExecutionLaneProfile) (c : ExecutionLaneCommand)
    → assert_command_matches_profile p (some c) ≡ ok tt
    → (p.tenant_id ≡ c.tenant_id)
      × (p.project_id ≡ c.project_id)
      × (p.runtime_profile_id ≡ c.runtime_profile_id)
unfolding assert_command_matches_profile
match_lem p c h =
    let (scope, k) =
      passed (not (p.tenant_id == c.tenant_id) || not (p.project_id == c.project_id)) _ _ h in
    let (same, _) = passed_eq p.runtime_profile_id c.runtime_profile_id _ _ k in
    (
      ground (arith, eq_iff p.tenant_id c.tenant_id),
      ground (arith, eq_iff p.project_id c.project_id),
      same,
    )

live_ready_lem :
    (p : ExecutionLaneProfile) (command : Option ExecutionLaneCommand)
    → live_ready p command ≡ true
    → (live_ready p command ≡ true)
      × (is_live_enabled p ≡ true)
      × (no_names (reasons p command) ≡ true)
unfolding live_ready
live_ready_lem p command h = ground arith

may_submit-live :
    (installed : Option String) (p : ExecutionLaneProfile) (command : Option ExecutionLaneCommand)
    → (plan_of installed p command).may_submit_order ≡ true
    → live_ready p command ≡ true
unfolding plan_of
may_submit-live installed p command h = ground arith

ready-live :
    (installed : Option String) (p : ExecutionLaneProfile) (command : Option ExecutionLaneCommand)
    → live_ready p command ≡ true
    → (plan_of installed p command).ready ≡ true
unfolding plan_of
ready-live installed p command h = ground arith

command_gates :
    (p : ExecutionLaneProfile) (c : ExecutionLaneCommand)
    → p.lane_mode ≡ live
    → no_names (reasons p (some c)) ≡ true
    → no_names (live_command_blocked p c) ≡ true
unfolding command_blocked_reasons
command_gates p c m h =
    let mode : no_names (command_blocked_by_mode p.lane_mode p c)
        ≡ no_names (live_command_blocked p c) =
      rw m refl in
    ground (arith, no_names-reasons p (some c), mode)

-- A plan for a command lets orders be submitted only where it is ready, its profile is live-enabled,
-- and the command is of the profile and its scope, may submit orders, is approved by the risk
-- decision and by a promotion, and names the risk profile, the credential slot and the evidence of the
-- profile.
pub plan-may_submit :
    (installed : Option String) (p : ExecutionLaneProfile) (c : ExecutionLaneCommand)
    (plan : RuntimePlan)
    → build_trading_node_runtime_plan installed p (some c) ≡ ok plan
    → plan.may_submit_order ≡ true
    → (plan.ready ≡ true)
      × (is_live_enabled p ≡ true)
      × (p.tenant_id ≡ c.tenant_id)
      × (p.project_id ≡ c.project_id)
      × (p.runtime_profile_id ≡ c.runtime_profile_id)
      × (c.may_submit_order ≡ true)
      × (c.risk_profile_id ≡ p.risk_profile_id)
      × (c.credential_slot_ref ≡ p.credential_slot_ref)
      × (is_approved_exactly c.risk_decision ≡ true)
      × (present c.promotion_approval_id ≡ true)
      × (c.manual_review_id ≡ p.manual_review_id)
      × (c.data_tester_evidence_ref ≡ p.data_tester_evidence_ref)
      × (c.exec_tester_evidence_ref ≡ p.exec_tester_evidence_ref)
      × (c.reconciliation_evidence_ref ≡ p.reconciliation_evidence_ref)
unfolding build_trading_node_runtime_plan
plan-may_submit installed p c plan h may =
    let (_, matched, k) = >>=-eq-ok (assert_command_matches_profile p (some c)) _ h in
    let same : plan_of installed p (some c) ≡ plan = ground arith in
    let may_of : (plan_of installed p (some c)).may_submit_order ≡ true =
      ap (λ (q : RuntimePlan). q.may_submit_order) same ∙ may in
    let (is_live, enabled, no_reasons) =
      live_ready_lem p (some c) (may_submit-live installed p (some c) may_of) in
    let (t, pr, r) = match_lem p c matched in
    let m = blocked_lem p c (command_gates p c (open_gates p enabled).0 no_reasons) in
    (
      ap (λ (q : RuntimePlan). q.ready) (sym same) ∙ ready-live installed p (some c) is_live,
      enabled,
      t,
      pr,
      r,
      m.0,
      m.1,
      m.2,
      m.3,
      m.4,
      m.5,
      m.6,
      m.7,
      m.8,
    )

blocked_case :
    (p : ExecutionLaneProfile) (c : ExecutionLaneCommand)
    → p.lane_mode ≡ live
    → is_approved_exactly c.risk_decision ≡ false
    → no_names (reasons p (some c)) ≡ false
blocked_case p c m a = elim (Bool-cases (no_names (reasons p (some c)))) [
  | inl open_reasons ↦
      let approved = (blocked_lem p c (command_gates p c m open_reasons)).3 in cc (approved, a)
  | inr shut ↦ shut
]

decision_changed :
    (c : ExecutionLaneCommand) (decision : Payload)
    → validate_command_authority c ≡ ok tt
    → has_live_authority c ≡ true
    → is_approved decision ≡ true
    → validate_command_authority (record c { risk_decision = decision }) ≡ ok tt
unfolding validate_command_authority command_missing
decision_changed c decision v h i =
    let all = authority-validate_command c v h in
    let same : command_missing (record c { risk_decision = decision }) ≡ command_missing c =
      rw (i, command_missing) (rw (all.12, command_missing) refl) in
    rw (all.0, validate_command_authority) (ground (arith, same, all))

-- A live command that passes the authority checks of its validator passes them too with the approval
-- written in another case, `Approved` for example, and then no plan for it is ever ready.
pub approval_case :
    (installed : Option String) (p : ExecutionLaneProfile) (c : ExecutionLaneCommand)
    (decision : Payload)
    → p.lane_mode ≡ live
    → validate_command_authority c ≡ ok tt
    → has_live_authority c ≡ true
    → is_approved decision ≡ true
    → is_approved_exactly decision ≡ false
    → (validate_command_authority (record c { risk_decision = decision }) ≡ ok tt)
      × ((plan_of installed p (some (record c { risk_decision = decision }))).ready ≡ false)
unfolding plan_of live_ready
approval_case installed p c decision m v h i a =
    let d = record c { risk_decision = decision } in
    (
      decision_changed c decision v h i,
      ground (arith, blocked_case p d m a, not_paper p (some d) m),
    )
