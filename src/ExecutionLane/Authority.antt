-- ===== src/ExecutionLane/Authority.antt =====
-- What the validators of packages/execution_lane/models.py and the match of a command with its
-- profile (packages/execution_lane/service.py) grant: live authority, and nothing less than all of it.
use nautilus_builder.Prelude.{
  true, false, not, ◌&&◌, ◌||◌, some, ok, passed, passed_eq, ◌==◌, ◌≡◌, arith, eq_iff,
  if◌then◌else◌, Bool-cases, inl, inr, string_eq, optional_eq,
}
use nautilus_builder.Prelude.Text.{given}
use nautilus_builder.ExecutionLane.Errors.{gate_laws, no_names}
use nautilus_builder.ExecutionLane.Profile.{
  ExecutionLaneProfile, paper, live, mode_eq, present, bad_checksum, wants_live_authority, unbound,
  profile_missing, validate_profile_authority, is_live_enabled,
}
use nautilus_builder.ExecutionLane.Command.{
  ExecutionLaneCommand, has_live_authority, is_approved, command_missing,
  validate_command_authority,
}
use nautilus_builder.ExecutionLane.Service.{
  assert_profile_matches_command, same_evidence, check_live,
}

-- The live branch finds nothing missing exactly if every gate is open.
profile_missing_lem :
    (p : ExecutionLaneProfile)
    → no_names (profile_missing p) ≡ true
    → (p.enabled ≡ true)
      × (p.advisory_only ≡ false)
      × (p.manual_review_required ≡ true)
      × (p.reconciliation_required ≡ true)
      × (p.live_trading_enabled ≡ true)
      × (p.execution_authority ≡ true)
      × (p.may_submit_order ≡ true)
      × (present p.risk_profile_id ≡ true)
      × (present p.credential_slot_ref ≡ true)
      × (present p.activated_by ≡ true)
      × (present p.activated_at ≡ true)
      × (present p.config_checksum ≡ true)
      × (present p.manual_review_id ≡ true)
      × (present p.data_tester_evidence_ref ≡ true)
      × (present p.exec_tester_evidence_ref ≡ true)
      × (present p.reconciliation_evidence_ref ≡ true)
      × (bad_checksum p.config_checksum ≡ false)
unfolding profile_missing
profile_missing_lem p h = let k = simp gate_laws at h in ground arith

by_mode_live :
    (p : ExecutionLaneProfile)
    → validate_profile_authority p ≡ ok tt
    → p.lane_mode ≡ live
    → wants_live_authority p ≡ true
    → is_live_enabled p ≡ true
unfolding validate_profile_authority is_live_enabled
by_mode_live p h m w = elim (Bool-cases (no_names (profile_missing p))) [
  | inl open_gates ↦ ground (arith, profile_missing_lem p open_gates)
  | inr shut ↦ ground arith
]

-- An accepted profile is live-enabled exactly if it is in live mode and asks for any live authority:
-- no accepted profile holds a part of that authority.
pub is_live_enabled-validate :
    (p : ExecutionLaneProfile)
    → validate_profile_authority p ≡ ok tt
    → is_live_enabled p ≡ (p.lane_mode == live && wants_live_authority p)
is_live_enabled-validate p h = elim (Bool-cases (wants_live_authority p)) [
  | inl wants ↦ unfold is_live_enabled in ground (arith, by_mode_live p h)
  | inr idle ↦ unfold is_live_enabled wants_live_authority in ground arith
]

pub no_names-unbound :
    (p : ExecutionLaneProfile) → no_names (unbound p) ≡ (present p.adapter_id && present p.venue)
unfolding unbound
no_names-unbound p = simp gate_laws (ground arith)

-- An accepted profile in paper mode holds no live authority and shows no live controls, and where it
-- is enabled it has paper trading on and an adapter and a venue bound.
pub paper-validate :
    (p : ExecutionLaneProfile)
    → validate_profile_authority p ≡ ok tt
    → p.lane_mode ≡ paper
    → (wants_live_authority p ≡ false)
      × (p.live_controls_enabled ≡ false)
      × ((not p.enabled || (p.paper_trading_enabled && present p.adapter_id && present p.venue))
          ≡ true)
unfolding validate_profile_authority wants_live_authority
paper-validate p h m = ground (arith, no_names-unbound p)

command_missing_lem :
    (c : ExecutionLaneCommand)
    → no_names (command_missing c) ≡ true
    → (c.live_trading_enabled ≡ true)
      × (c.execution_authority ≡ true)
      × (c.may_submit_order ≡ true)
      × (c.reconciliation_required ≡ true)
      × (present c.promotion_approval_id ≡ true)
      × (present c.risk_profile_id ≡ true)
      × (present c.credential_slot_ref ≡ true)
      × (present c.manual_review_id ≡ true)
      × (present c.data_tester_evidence_ref ≡ true)
      × (present c.exec_tester_evidence_ref ≡ true)
      × (present c.reconciliation_evidence_ref ≡ true)
      × (is_approved c.risk_decision ≡ true)
unfolding command_missing
command_missing_lem c h = let k = simp gate_laws at h in ground arith

-- An accepted command that has any live authority is in live mode, has all three flags of it, an
-- approved risk decision, reconciliation, a promotion approval and every evidence reference.
pub authority-validate_command :
    (c : ExecutionLaneCommand)
    → validate_command_authority c ≡ ok tt
    → has_live_authority c ≡ true
    → (c.lane_mode ≡ live)
      × (c.live_trading_enabled ≡ true)
      × (c.execution_authority ≡ true)
      × (c.may_submit_order ≡ true)
      × (c.reconciliation_required ≡ true)
      × (present c.promotion_approval_id ≡ true)
      × (present c.risk_profile_id ≡ true)
      × (present c.credential_slot_ref ≡ true)
      × (present c.manual_review_id ≡ true)
      × (present c.data_tester_evidence_ref ≡ true)
      × (present c.exec_tester_evidence_ref ≡ true)
      × (present c.reconciliation_evidence_ref ≡ true)
      × (is_approved c.risk_decision ≡ true)
unfolding validate_command_authority
authority-validate_command c h a = elim (Bool-cases (no_names (command_missing c))) [
  | inl open_gates ↦ ground (arith, command_missing_lem c open_gates)
  | inr shut ↦ ground arith
]

same_evidence_lem :
    (p : ExecutionLaneProfile) (c : ExecutionLaneCommand)
    → same_evidence p c ≡ ok tt
    → (p.manual_review_id ≡ c.manual_review_id)
      × (p.data_tester_evidence_ref ≡ c.data_tester_evidence_ref)
      × (p.exec_tester_evidence_ref ≡ c.exec_tester_evidence_ref)
      × (p.reconciliation_evidence_ref ≡ c.reconciliation_evidence_ref)
unfolding same_evidence
same_evidence_lem p c h =
    let (e₁, k₁) = passed_eq p.manual_review_id c.manual_review_id _ _ h in
    let (e₂, k₂) = passed_eq p.data_tester_evidence_ref c.data_tester_evidence_ref _ _ k₁ in
    let (e₃, k₃) = passed_eq p.exec_tester_evidence_ref c.exec_tester_evidence_ref _ _ k₂ in
    let (e₄, k₄) = passed_eq p.reconciliation_evidence_ref c.reconciliation_evidence_ref _ _ k₃ in
    (e₁, e₂, e₃, e₄)

check_live_lem :
    (p : ExecutionLaneProfile) (c : ExecutionLaneCommand)
    → check_live p c ≡ ok tt
    → (is_live_enabled p ≡ true)
      × (p.risk_profile_id ≡ c.risk_profile_id)
      × (p.credential_slot_ref ≡ c.credential_slot_ref)
      × (same_evidence p c ≡ ok tt)
unfolding check_live
check_live_lem p c h =
    let (live_enabled, k₁) = passed (not (is_live_enabled p)) _ _ h in
    let (e₂, k₂) = passed_eq p.risk_profile_id c.risk_profile_id _ _ k₁ in
    let (e₃, k₃) = passed_eq p.credential_slot_ref c.credential_slot_ref _ _ k₂ in
    (ground arith, e₂, e₃, k₃)

-- What a matched command shares with its profile, whatever its authority.
pub match_scope :
    (p : ExecutionLaneProfile) (c : ExecutionLaneCommand)
    → assert_profile_matches_command p c ≡ ok tt
    → (p.tenant_id ≡ c.tenant_id)
      × (p.project_id ≡ c.project_id)
      × (p.lane_mode ≡ c.lane_mode)
      × (p.adapter_id ≡ some c.adapter_id)
      × (p.venue ≡ some c.venue)
      × ((if has_live_authority c then check_live p c else ok tt) ≡ ok tt)
unfolding assert_profile_matches_command
match_scope p c h =
    let (scope, k₁) =
      passed (not (p.tenant_id == c.tenant_id) || not (p.project_id == c.project_id)) _ _ h in
    let (e₂, k₂) = passed_eq p.lane_mode c.lane_mode _ _ k₁ in
    let (e₃, k₃) = passed_eq p.adapter_id (some c.adapter_id) _ _ k₂ in
    let (e₄, k₄) = passed_eq p.venue (some c.venue) _ _ k₃ in
    let (_, k₅) =
      passed
        (given p.venue_account_id
          && given c.venue_account_id
          && not (p.venue_account_id == c.venue_account_id))
        _ _ k₄ in
    (
      ground (arith, eq_iff p.tenant_id c.tenant_id),
      ground (arith, eq_iff p.project_id c.project_id),
      e₂,
      e₃,
      e₄,
      k₅,
    )

-- A command with live authority is matched only to a profile that is live-enabled, of its own scope,
-- mode, adapter and venue, with the same risk profile, credential slot and evidence.
pub match-live :
    (p : ExecutionLaneProfile) (c : ExecutionLaneCommand)
    → assert_profile_matches_command p c ≡ ok tt
    → has_live_authority c ≡ true
    → (is_live_enabled p ≡ true)
      × (p.tenant_id ≡ c.tenant_id)
      × (p.project_id ≡ c.project_id)
      × (p.lane_mode ≡ c.lane_mode)
      × (p.adapter_id ≡ some c.adapter_id)
      × (p.venue ≡ some c.venue)
      × (p.risk_profile_id ≡ c.risk_profile_id)
      × (p.credential_slot_ref ≡ c.credential_slot_ref)
      × (p.manual_review_id ≡ c.manual_review_id)
      × (p.data_tester_evidence_ref ≡ c.data_tester_evidence_ref)
      × (p.exec_tester_evidence_ref ≡ c.exec_tester_evidence_ref)
      × (p.reconciliation_evidence_ref ≡ c.reconciliation_evidence_ref)
match-live p c h a =
    let (e₁, e₂, e₃, e₄, e₅, k) = match_scope p c h in
    let (f₁, f₂, f₃, l) = check_live_lem p c (ground arith) in
    let (g₁, g₂, g₃, g₄) = same_evidence_lem p c l in
    (f₁, e₁, e₂, e₃, e₄, e₅, f₂, f₃, g₁, g₂, g₃, g₄)
