-- ===== src/ExecutionLane/PlanExamples.antt =====
-- The theorems on runtime plans at the test data.
use nautilus_builder.Prelude.{
  true, false, none, some, [], ◌∷◌, ok, ◌==◌, ◌≡◌, refl, if◌then◌else◌, string_eq,
}
use nautilus_builder.Prelude.Dict.{get}
use nautilus_builder.Prelude.Text.{strip, is_space, lower_is, lower, same_codes, prefix}
use nautilus_builder.Json.{text}
use nautilus_builder.ExecutionLane.Errors.{gate, no_names}
use nautilus_builder.ExecutionLane.Profile.{
  live, mode_eq, present, bad_checksum, unbound, wants_live_authority, profile_missing,
  validate_profile_authority, is_live_enabled,
}
use nautilus_builder.ExecutionLane.Command.{
  ExecutionLaneCommand, has_live_authority, is_approved, command_missing,
  validate_command_authority,
}
use nautilus_builder.ExecutionLane.RuntimePlan.{
  RuntimePlan, assert_command_matches_profile, live_blocked, profile_blocked_reasons,
  is_approved_exactly, live_command_blocked, command_blocked_reasons, sorted_set, insert_reason,
  reasons, live_ready, paper_ready,
}
use nautilus_builder.ExecutionLane.PlanBuild.{
  plan_of, evidence_refs, config_contract, build_trading_node_runtime_plan,
}
use nautilus_builder.ExecutionLane.Readiness.{ready_lem}
use nautilus_builder.ExecutionLane.PlanAuthority.{plan-may_submit, approval_case}
use nautilus_builder.ExecutionLane.Fixtures.{live_profile, paper_profile, live_command}

abbrev approved_command : ExecutionLaneCommand
approved_command = record (live_command "c" "k") {
  risk_decision = ("status", text "approved") ∷ [];
}

abbrev plan : RuntimePlan
plan = plan_of none live_profile (some approved_command)

guards :
    (validate_profile_authority paper_profile ≡ ok tt)
    × (build_trading_node_runtime_plan none live_profile (some approved_command) ≡ ok plan)
    × (plan.may_submit_order ≡ true)
    × (validate_command_authority (live_command "c" "k") ≡ ok tt)
    × (has_live_authority (live_command "c" "k") ≡ true)
    × (is_approved_exactly (live_command "c" "k").risk_decision ≡ false)
    × (validate_command_authority approved_command ≡ ok tt)
    × (has_live_authority approved_command ≡ true)
    × (is_approved (live_command "c" "k").risk_decision ≡ true)
unfolding get strip is_space lower_is lower same_codes prefix gate no_names present bad_checksum
    unbound wants_live_authority profile_missing validate_profile_authority is_live_enabled
    has_live_authority is_approved command_missing validate_command_authority
    assert_command_matches_profile live_blocked profile_blocked_reasons is_approved_exactly
    live_command_blocked command_blocked_reasons sorted_set insert_reason reasons live_ready
    paper_ready plan_of evidence_refs config_contract build_trading_node_runtime_plan
guards = (refl, refl, refl, refl, refl, refl, refl, refl, refl)

ready_lem_example : (plan_of none paper_profile none).ready ≡ (
    if paper_profile.lane_mode == live
    then wants_live_authority paper_profile
    else paper_profile.enabled)
ready_lem_example = ready_lem none paper_profile guards.0

plan-may_submit_example :
    (plan.ready ≡ true)
    × (is_live_enabled live_profile ≡ true)
    × (live_profile.tenant_id ≡ approved_command.tenant_id)
    × (live_profile.project_id ≡ approved_command.project_id)
    × (live_profile.runtime_profile_id ≡ approved_command.runtime_profile_id)
    × (approved_command.may_submit_order ≡ true)
    × (approved_command.risk_profile_id ≡ live_profile.risk_profile_id)
    × (approved_command.credential_slot_ref ≡ live_profile.credential_slot_ref)
    × (is_approved_exactly approved_command.risk_decision ≡ true)
    × (present approved_command.promotion_approval_id ≡ true)
    × (approved_command.manual_review_id ≡ live_profile.manual_review_id)
    × (approved_command.data_tester_evidence_ref ≡ live_profile.data_tester_evidence_ref)
    × (approved_command.exec_tester_evidence_ref ≡ live_profile.exec_tester_evidence_ref)
    × (approved_command.reconciliation_evidence_ref ≡ live_profile.reconciliation_evidence_ref)
plan-may_submit_example = plan-may_submit none live_profile approved_command plan guards.1 guards.2

approval_case_example :
    (validate_command_authority (live_command "c" "k") ≡ ok tt)
    × ((plan_of none live_profile (some (live_command "c" "k"))).ready ≡ false)
approval_case_example =
    approval_case none live_profile approved_command (live_command "c" "k").risk_decision refl
      guards.6 guards.7 guards.8 guards.5
