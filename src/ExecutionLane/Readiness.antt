-- ===== src/ExecutionLane/Readiness.antt =====
-- When a runtime plan of packages/execution_lane/nautilus_runtime.py is ready, and what authority it
-- carries.
use nautilus_builder.Prelude.{
  true, false, not, ◌&&◌, Option, none, some, String, List, [], ◌∷◌, ◌++◌, ok, ◌==◌, string_eq,
  optional_eq, if◌then◌else◌, ◌≡◌, ◌∙◌, refl, arith, Bool-cases, inl, inr,
}
use nautilus_builder.ExecutionLane.Errors.{no_names, gate_laws, no_names-append}
use nautilus_builder.ExecutionLane.Profile.{
  ExecutionLaneProfile, paper, live, mode_eq, present, is_live_enabled, wants_live_authority,
  validate_profile_authority,
}
use nautilus_builder.ExecutionLane.Command.{ExecutionLaneCommand}
use nautilus_builder.ExecutionLane.Authority.{
  is_live_enabled-validate, paper-validate, no_names-unbound,
}
use nautilus_builder.ExecutionLane.RuntimePlan.{
  paper_blocked, live_blocked, profile_blocked_reasons, command_blocked_reasons, insert_reason,
  sorted_set, reasons, live_ready, paper_ready, is_some,
}
use nautilus_builder.ExecutionLane.PlanBuild.{plan_of}

no_names-insert_reason : (s : String) (ts : List String) → no_names (insert_reason s ts) ≡ false
unfolding insert_reason no_names
no_names-insert_reason s [] = refl
no_names-insert_reason s (t ∷ ts) = ground arith

no_names-sorted_set : (ss : List String) → no_names (sorted_set ss) ≡ no_names ss
unfolding sorted_set no_names
no_names-sorted_set [] = refl
no_names-sorted_set (s ∷ ss) = no_names-insert_reason s (sorted_set ss)

pub no_names-reasons :
    (p : ExecutionLaneProfile) (command : Option ExecutionLaneCommand)
    → no_names (reasons p command)
      ≡ (no_names (profile_blocked_reasons p) && no_names (command_blocked_reasons p command))
unfolding reasons
no_names-reasons p command =
    no_names-sorted_set (profile_blocked_reasons p ++ command_blocked_reasons p command)
    ∙ no_names-append (profile_blocked_reasons p) (command_blocked_reasons p command)

live_blocked_lem :
    (p : ExecutionLaneProfile)
    → p.lane_mode ≡ live
    → no_names (profile_blocked_reasons p)
      ≡ (p.enabled && (present p.adapter_id && (present p.venue && no_names (live_blocked p))))
unfolding profile_blocked_reasons
live_blocked_lem p m = rw m (simp gate_laws (ground arith))

pub open_gates :
    (p : ExecutionLaneProfile)
    → is_live_enabled p ≡ true
    → (p.lane_mode ≡ live)
      × (p.advisory_only ≡ false)
      × (p.manual_review_required ≡ true)
      × (p.reconciliation_required ≡ true)
      × (p.live_trading_enabled ≡ true)
      × (p.execution_authority ≡ true)
      × (p.may_submit_order ≡ true)
      × (present p.risk_profile_id ≡ true)
      × (present p.credential_slot_ref ≡ true)
      × (present p.activated_by ≡ true)
      × (present p.activated_at ≡ true)
      × (present p.config_checksum ≡ true)
      × (present p.manual_review_id ≡ true)
      × (present p.data_tester_evidence_ref ≡ true)
      × (present p.exec_tester_evidence_ref ≡ true)
      × (present p.reconciliation_evidence_ref ≡ true)
      × (p.enabled ≡ true)
unfolding is_live_enabled
open_gates p e = ground arith

-- A profile that is live-enabled has no reason of the live branch.
live_gates :
    (p : ExecutionLaneProfile) → is_live_enabled p ≡ true → no_names (live_blocked p) ≡ true
unfolding live_blocked
live_gates p e =
    let (_, a, b, c, d, f, g, h, i, j, k, l, m, n, o, q, _) = open_gates p e in
    simp (gate_laws, a, b, c, d, f, g, h, i, j, k, l, m, n, o, q) refl

bound_lem :
    (p : ExecutionLaneProfile)
    → validate_profile_authority p ≡ ok tt
    → p.enabled ≡ true
    → (present p.adapter_id ≡ true) × (present p.venue ≡ true)
unfolding validate_profile_authority
bound_lem p h e = ground (arith, no_names-unbound p)

live_reasons :
    (p : ExecutionLaneProfile)
    → validate_profile_authority p ≡ ok tt
    → is_live_enabled p ≡ true
    → no_names (profile_blocked_reasons p) ≡ true
live_reasons p h e =
    let gates = open_gates p e in
    let (a, v) = bound_lem p h gates.16 in
    live_blocked_lem p gates.0 ∙ ground (arith, live_gates p e)

paper_blocked_lem :
    (p : ExecutionLaneProfile)
    → p.lane_mode ≡ paper
    → no_names (profile_blocked_reasons p) ≡ (
        p.enabled
        && (present p.adapter_id
            && (present p.venue
                && (p.paper_trading_enabled
                    && (not p.live_trading_enabled
                        && (not p.execution_authority && not p.may_submit_order))))))
unfolding profile_blocked_reasons paper_blocked
paper_blocked_lem p m = rw m (simp gate_laws (ground arith))

paper_reasons :
    (p : ExecutionLaneProfile)
    → validate_profile_authority p ≡ ok tt
    → p.lane_mode ≡ paper
    → no_names (profile_blocked_reasons p) ≡ p.enabled
unfolding wants_live_authority
paper_reasons p h m = let (a, _, c) = paper-validate p h m in paper_blocked_lem p m ∙ ground arith

no_names-reasons-none :
    (p : ExecutionLaneProfile) → no_names (reasons p none) ≡ no_names (profile_blocked_reasons p)
unfolding command_blocked_reasons no_names
no_names-reasons-none p = no_names-reasons p none ∙ ground arith

is_some-present : (s : Option String) → present s ≡ true → is_some s ≡ true
unfolding present
is_some-present none h = cc
is_some-present (some s) h = refl

live_ready-none :
    (p : ExecutionLaneProfile)
    → validate_profile_authority p ≡ ok tt
    → p.lane_mode ≡ live
    → live_ready p none ≡ is_live_enabled p
unfolding live_ready
live_ready-none p h m = ground (arith, no_names-reasons-none p, live_reasons p h)

paper_ready-none :
    (p : ExecutionLaneProfile)
    → validate_profile_authority p ≡ ok tt
    → p.lane_mode ≡ paper
    → paper_ready p none ≡ p.enabled
unfolding paper_ready
paper_ready-none p h m =
    let (_, _, c) = paper-validate p h m in
    ground (
      arith,
      no_names-reasons-none p,
      paper_reasons p h m,
      bound_lem p h,
      is_some-present p.adapter_id,
      is_some-present p.venue,
    )

pub not_paper :
    (p : ExecutionLaneProfile) (command : Option ExecutionLaneCommand)
    → p.lane_mode ≡ live
    → paper_ready p command ≡ false
unfolding paper_ready
not_paper p command m = ground arith

not_live :
    (p : ExecutionLaneProfile) (command : Option ExecutionLaneCommand)
    → p.lane_mode ≡ paper
    → live_ready p command ≡ false
unfolding live_ready
not_live p command m = ground arith

-- Without a command, the plan of an accepted profile is ready exactly where the profile asks for live
-- authority, in live mode, and exactly where it is enabled, in paper mode.
pub ready_lem :
    (installed : Option String) (p : ExecutionLaneProfile)
    → validate_profile_authority p ≡ ok tt
    → (plan_of installed p none).ready
      ≡ (if p.lane_mode == live then wants_live_authority p else p.enabled)
unfolding plan_of
ready_lem installed p h = elim (Bool-cases (p.lane_mode == live)) [
  | inl is_live ↦
      let m : p.lane_mode ≡ live = ground arith in
      ground (arith, live_ready-none p h m, not_paper p none m, is_live_enabled-validate p h)
  | inr is_paper ↦
      let m : p.lane_mode ≡ paper = ground arith in
      ground (arith, paper_ready-none p h m, not_live p none m)
]
