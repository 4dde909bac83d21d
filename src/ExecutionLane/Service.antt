-- ===== src/ExecutionLane/Service.antt =====
-- `ExecutionLaneService` of packages/execution_lane/service.py: its state, and the methods that
-- register profiles and slots, queue, claim and report commands, and keep sessions. A method returns
-- its result with the new state; where it raises, it has written nothing.
use nautilus_builder.Prelude.{
  ℕ, Bool, false, not, ◌&&◌, ◌||◌, Option, none, some, String, [], ◌∷◌, Result, ok, ◌>>=◌, ◌>>◌,
  raise_if, or_raise, ◌==◌, string_eq, pair_eq, optional_eq, ltb, length, find, if◌then◌else◌,
}
use nautilus_builder.Prelude.Text.{given, starts_with}
use nautilus_builder.Prelude.Dict.{Dict, values, get, put}
use nautilus_builder.Json.{Payload}
use nautilus_builder.ExecutionLane.Errors.{
  Error, Check, key_error, project_scope, profile_required, scope_mismatch, mode_mismatch,
  adapter_mismatch, venue_mismatch, account_mismatch, not_live_enabled, risk_profile_mismatch,
  slot_mismatch, evidence_mismatch, none_queued, not_queued, slot_not_registered, slot_scope,
  slot_profile, slot_adapter, slot_mode,
}
use nautilus_builder.ExecutionLane.Profile.{
  ExecutionLaneProfile, mode_eq, is_live_enabled, validate_profile,
}
use nautilus_builder.ExecutionLane.Command.{
  ExecutionLaneCommand, queued, claimed, reported, status_eq, has_live_authority, validate_command,
}
use nautilus_builder.ExecutionLane.Report.{ExecutionLaneReport, validate_report, report_payload}
use nautilus_builder.ExecutionLane.Slots.{ExecutionCredentialSlot, ExecutionLaneSession}

-- Pydantic's reading of the fields of each model, and `_sha256_hex` of a dictionary.
pub record Readers : Type 0 where
  pub read_profile : Payload → Result Error ExecutionLaneProfile
  pub read_command : Payload → Result Error ExecutionLaneCommand
  pub read_report : Payload → Result Error ExecutionLaneReport
  pub digest : Payload → String

pub record ExecutionLaneService : Type 0 where
  pub max_reports : Option ℕ
  pub max_sessions : Option ℕ
  pub profiles : Dict String ExecutionLaneProfile
  pub commands : Dict String ExecutionLaneCommand
  pub idempotency_index : Dict (String × String) String
  pub reports : Dict String ExecutionLaneReport
  pub credential_slots : Dict String ExecutionCredentialSlot
  pub sessions : Dict String ExecutionLaneSession

-- `ExecutionLaneService(max_reports=…, max_sessions=…)`
unfoldable pub new : Option ℕ → Option ℕ → ExecutionLaneService
new max_reports max_sessions = record {
  max_reports = max_reports;
  max_sessions = max_sessions;
  profiles = [];
  commands = [];
  idempotency_index = [];
  reports = [];
  credential_slots = [];
  sessions = [];
}

abbrev slot_prefix : String
slot_prefix = "credslot://local-env/"

abbrev check_slot : ExecutionCredentialSlot → ExecutionLaneProfile → Check
check_slot slot p = do
  raise_if (not (slot.tenant_id == p.tenant_id) || not (slot.project_id == p.project_id)) slot_scope
  raise_if (not (slot.runtime_profile_id == p.runtime_profile_id)) slot_profile
  raise_if (not (some slot.adapter_id == p.adapter_id) || not (some slot.venue == p.venue))
      slot_adapter
  raise_if (not (slot.lane_mode == p.lane_mode)) slot_mode

-- `_assert_profile_credential_slot`
unfoldable pub assert_profile_credential_slot :
    Dict String ExecutionCredentialSlot → ExecutionLaneProfile → Check
assert_profile_credential_slot slots p = elim p.credential_slot_ref [
  | none ↦ ok tt
  | some ref ↦
      if starts_with ref slot_prefix
      then (do slot ← or_raise (get ref slots) slot_not_registered; check_slot slot p)
      else ok tt
]

unfoldable pub register_profile :
    Readers
    → Payload
    → ExecutionLaneService
    → Result Error (ExecutionLaneProfile × ExecutionLaneService)
register_profile r payload s = do
  p ← validate_profile r.read_profile payload
  assert_profile_credential_slot s.credential_slots p
  ok (p, record s { profiles = put p.runtime_profile_id p s.profiles })

-- `project_id is not None and item.project_id != project_id`
unfoldable pub out_of_scope : Option String → String → Bool
out_of_scope none owner = false
out_of_scope (some project_id) owner = not (owner == project_id)

unfoldable pub get_profile :
    String → Option String → ExecutionLaneService → Result Error ExecutionLaneProfile
unfolding out_of_scope
get_profile runtime_profile_id project_id s = do
  p ← or_raise (get runtime_profile_id s.profiles) key_error
  raise_if (out_of_scope project_id p.project_id) project_scope
  ok p

unfoldable pub get_command :
    String → Option String → ExecutionLaneService → Result Error ExecutionLaneCommand
unfolding out_of_scope
get_command command_id project_id s = do
  c ← or_raise (get command_id s.commands) key_error
  raise_if (out_of_scope project_id c.project_id) project_scope
  ok c

-- The loop over the evidence fields in `_assert_profile_matches_command`.
unfoldable pub same_evidence : ExecutionLaneProfile → ExecutionLaneCommand → Check
same_evidence p c = do
  raise_if (not (p.manual_review_id == c.manual_review_id)) (evidence_mismatch "manual_review_id")
  raise_if (not (p.data_tester_evidence_ref == c.data_tester_evidence_ref))
      (evidence_mismatch "data_tester_evidence_ref")
  raise_if (not (p.exec_tester_evidence_ref == c.exec_tester_evidence_ref))
      (evidence_mismatch "exec_tester_evidence_ref")
  raise_if (not (p.reconciliation_evidence_ref == c.reconciliation_evidence_ref))
      (evidence_mismatch "reconciliation_evidence_ref")
  ok tt

-- Its branch for commands with live authority.
unfoldable pub check_live : ExecutionLaneProfile → ExecutionLaneCommand → Check
unfolding same_evidence
check_live p c = do
  raise_if (not (is_live_enabled p)) not_live_enabled
  raise_if (not (p.risk_profile_id == c.risk_profile_id)) risk_profile_mismatch
  raise_if (not (p.credential_slot_ref == c.credential_slot_ref)) slot_mismatch
  same_evidence p c

-- `_assert_profile_matches_command`
unfoldable pub assert_profile_matches_command : ExecutionLaneProfile → ExecutionLaneCommand → Check
unfolding check_live
assert_profile_matches_command p c = do
  raise_if (not (p.tenant_id == c.tenant_id) || not (p.project_id == c.project_id)) scope_mismatch
  raise_if (not (p.lane_mode == c.lane_mode)) mode_mismatch
  raise_if (not (p.adapter_id == some c.adapter_id)) adapter_mismatch
  raise_if (not (p.venue == some c.venue)) venue_mismatch
  raise_if
      (given p.venue_account_id
        && given c.venue_account_id
        && not (p.venue_account_id == c.venue_account_id))
      account_mismatch
  if has_live_authority c then check_live p c else ok tt

-- The end of `enqueue_command`: the known command of the key, or the new one.
unfoldable pub store_command :
    ExecutionLaneCommand
    → ExecutionLaneService
    → Result Error (ExecutionLaneCommand × ExecutionLaneService)
store_command c s = elim (get (c.runtime_profile_id, c.idempotency_key) s.idempotency_index) [
  | some existing_id ↦ (do found ← or_raise (get existing_id s.commands) key_error; ok (found, s))
  | none ↦ ok (
    c,
    record s {
      commands = put c.command_id c s.commands;
      idempotency_index =
          put (c.runtime_profile_id, c.idempotency_key) c.command_id s.idempotency_index;
    },
  )
]

unfoldable pub enqueue_command :
    Readers
    → Payload
    → ExecutionLaneService
    → Result Error (ExecutionLaneCommand × ExecutionLaneService)
unfolding store_command
enqueue_command r payload s = do
  c ← validate_command r.digest r.read_command payload
  p ← or_raise (get c.runtime_profile_id s.profiles) profile_required
  assert_profile_matches_command p c
  store_command c s

-- `claim_command`; `now` is the clock's text.
unfoldable pub claim_command :
    String
    → String
    → String
    → ExecutionLaneService
    → Result Error (ExecutionLaneCommand × ExecutionLaneService)
claim_command now command_id worker_id s = do
  c ← or_raise (get command_id s.commands) key_error
  raise_if (not (c.status == queued)) not_queued
  let c' = record c { status = claimed; claimed_by = some worker_id; claimed_at = some now }
  ok (c', record s { commands = put c'.command_id c' s.commands })

abbrev pub is_queued_for : String → ExecutionLaneCommand → Bool
is_queued_for runtime_profile_id c =
    c.runtime_profile_id == runtime_profile_id && c.status == queued

unfoldable pub claim_next :
    String
    → String
    → String
    → ExecutionLaneService
    → Result Error (ExecutionLaneCommand × ExecutionLaneService)
unfolding claim_command
claim_next now runtime_profile_id worker_id s = do
  c ← or_raise (find (is_queued_for runtime_profile_id) (values s.commands)) none_queued
  claim_command now c.command_id worker_id s

-- `while len(d) > max: del d[next(iter(d))]`
unfoldable pub evict_to {ℓ} : {V : Type ℓ} → ℕ → Dict String V → Dict String V
evict_to max [] = []
evict_to max ((k, v) ∷ d) =
    let rest = evict_to max d in if ltb max (length ((k, v) ∷ d)) then rest else (k, v) ∷ d

-- `_evict_reports_if_needed` and `_evict_sessions_if_needed`
unfoldable pub evict_if_needed {ℓ} : {V : Type ℓ} → Option ℕ → Dict String V → Dict String V
unfolding evict_to
evict_if_needed none d = d
evict_if_needed (some max) d = evict_to max d

unfoldable pub record_report :
    Readers
    → String
    → Payload
    → ExecutionLaneService
    → Result Error (ExecutionLaneReport × ExecutionLaneService)
unfolding evict_if_needed report_payload
record_report r command_id payload s = do
  c ← or_raise (get command_id s.commands) key_error
  report ← validate_report r.digest r.read_report (report_payload c payload)
  ok (
    report,
    record s {
      reports = evict_if_needed s.max_reports (put report.report_id report s.reports);
      commands = put c.command_id (record c { status = reported }) s.commands;
    },
  )

unfoldable pub record_session : ExecutionLaneSession → ExecutionLaneService → ExecutionLaneService
unfolding evict_if_needed
record_session session s = record s {
  sessions = evict_if_needed s.max_sessions (put session.session_id session s.sessions);
}

unfoldable pub get_session :
    String → Option String → ExecutionLaneService → Result Error ExecutionLaneSession
unfolding out_of_scope
get_session session_id project_id s = do
  session ← or_raise (get session_id s.sessions) key_error
  raise_if (out_of_scope project_id session.project_id) project_scope
  ok session
