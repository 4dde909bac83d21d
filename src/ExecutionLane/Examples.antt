-- ===== src/ExecutionLane/Examples.antt =====
-- The theorems on packages/execution_lane at the test data.
use nautilus_builder.ExecutionLane.Authority.{is_live_enabled-validate, match-live}
use nautilus_builder.ExecutionLane.Claims.{claim_lasts, held}
use nautilus_builder.ExecutionLane.Command.{
  ExecutionLaneCommand, check_command_fields, command_missing, has_live_authority, is_approved,
  material, populate_command_id, reject_secrets_and_coupling, supplied, validate_command,
  validate_command_authority,
}
use nautilus_builder.ExecutionLane.Enqueue.{enqueue-live, enqueue_appends, index_key}
use nautilus_builder.ExecutionLane.Errors.{gate, no_names}
use nautilus_builder.ExecutionLane.Eviction.{record_report_bounded}
use nautilus_builder.ExecutionLane.Fixtures.{
  calls, chosen, live_command, live_profile, paper_profile, readers, registered, report_of, request,
  session_of, waiting,
}
use nautilus_builder.ExecutionLane.Invariant.{IsConsistent}
use nautilus_builder.ExecutionLane.Resend.{enqueue_once}
use nautilus_builder.ExecutionLane.Profile.{
  ExecutionLaneProfile, bad_checksum, check_profile_fields, is_live_enabled, live, mode_eq, present,
  profile_missing, unbound, validate_profile, validate_profile_authority, wants_live_authority,
}
use nautilus_builder.ExecutionLane.Queue.{claim_next_takes_oldest, claim_of, queue}
use nautilus_builder.ExecutionLane.Report.{
  ExecutionLaneReport, check_report_fields, populate_report_id, report_material, report_payload,
  validate_report,
}
use nautilus_builder.ExecutionLane.Run.{
  Call, register, session, call, claim, enqueue, report, run, run-IsConsistent, run-authority,
  run-new,
}
use nautilus_builder.ExecutionLane.Service.{
  ExecutionLaneService, assert_profile_credential_slot, assert_profile_matches_command, check_live,
  claim_command, claim_next, enqueue_command, evict_if_needed, evict_to, new, record_report,
  record_session, register_profile, same_evidence, store_command,
}
use nautilus_builder.Json.{
  Payload, text, has_forbidden_key, is_true, optional, payload_forbidden, set_default,
}
use nautilus_builder.Prelude.{
  [], arith, drop, if◌then◌else◌, List, length, none, ok, pair_eq, refl, some, string_eq, true,
  ◌&&◌, ◌++◌, ◌-◌, ◌==◌, ◌∷◌, ◌≡◌, ◌≤◌,
}
use nautilus_builder.Prelude.Dict.{get, put, values}
use nautilus_builder.Prelude.Text.{is_space, lower, lower_in, lower_is, prefix, same_codes, strip}

abbrev c1 : ExecutionLaneCommand
c1 = live_command "exec_cmd_1" "1"

abbrev c2 : ExecutionLaneCommand
c2 = live_command "exec_cmd_2" "2"

abbrev once : ExecutionLaneService
once = run readers (enqueue (request "1") ∷ []) registered

abbrev later : List Call
later = enqueue (request "2") ∷ claim "12:00" "exec_cmd_1" "worker" ∷ []

abbrev claimed_state : ExecutionLaneService
claimed_state = run readers (claim "12:00" "exec_cmd_1" "worker" ∷ []) waiting

abbrev reported_state : ExecutionLaneService
reported_state = run readers (report "exec_cmd_1" [] ∷ []) claimed_state

-- A second report, under an id of its own.
abbrev second_payload : Payload
second_payload = ("report_id", text "second") ∷ []

abbrev second_state : ExecutionLaneService
second_state = run readers (report "exec_cmd_1" second_payload ∷ []) reported_state

abbrev session_state : ExecutionLaneService
session_state = run readers (session (session_of "first") ∷ []) claimed_state

abbrev replaced_state : ExecutionLaneService
replaced_state = run readers (enqueue (chosen "exec_cmd_1" "3") ∷ []) claimed_state

-- What the calls on the test data compute to.
tests :
    (get "exec_cmd_1" waiting.commands ≡ some c1)
    × (queue "lane" waiting ≡ c1 ∷ c2 ∷ [])
    × (enqueue_command readers (request "1") registered ≡ ok (c1, once))
    × (enqueue_command readers (request "2") once ≡ ok (c2, waiting))
    × (claim_command "12:00" "exec_cmd_1" "worker" waiting
        ≡ ok (claim_of "12:00" "worker" c1, claimed_state))
    × (held "worker" (get "exec_cmd_1" claimed_state.commands) ≡ true)
    × (enqueue_command readers (chosen "exec_cmd_1" "3") claimed_state
        ≡ ok (live_command "exec_cmd_1" "3", replaced_state))
    × (get "exec_cmd_1" claimed_state.commands ≡ some (claim_of "12:00" "worker" c1))
    × (get c1.runtime_profile_id (run readers later once).profiles ≡ some live_profile)
unfolding run get put enqueue_command validate_command payload_forbidden has_forbidden_key
    check_command_fields populate_command_id material supplied is_true prefix
    reject_secrets_and_coupling validate_command_authority has_live_authority no_names
    command_missing gate present strip is_space is_approved register_profile bad_checksum
    check_profile_fields is_live_enabled profile_missing unbound validate_profile
    validate_profile_authority wants_live_authority check_report_fields populate_report_id
    report_material report_payload validate_report call assert_profile_credential_slot
    assert_profile_matches_command check_live claim_command claim_next evict_if_needed evict_to
    record_report record_session same_evidence store_command optional set_default values lower
    lower_in lower_is same_codes new
tests = (refl, refl, refl, refl, refl, refl, refl, refl, refl)

-- The authority of the stored live command.
run-authority_example :
    (c1.lane_mode ≡ live)
    × (c1.live_trading_enabled ≡ true)
    × (c1.execution_authority ≡ true)
    × (c1.may_submit_order ≡ true)
    × (c1.reconciliation_required ≡ true)
    × (present c1.promotion_approval_id ≡ true)
    × (present c1.risk_profile_id ≡ true)
    × (present c1.credential_slot_ref ≡ true)
    × (present c1.manual_review_id ≡ true)
    × (present c1.data_tester_evidence_ref ≡ true)
    × (present c1.exec_tester_evidence_ref ≡ true)
    × (present c1.reconciliation_evidence_ref ≡ true)
    × (is_approved c1.risk_decision ≡ true)
unfolding has_live_authority
run-authority_example = run-authority readers calls (some 1) (some 1) "exec_cmd_1" c1 tests.0 refl

run-new_example : IsConsistent waiting
run-new_example = run-new readers calls (some 1) (some 1)

-- The live profile and its command pass their guards, and the paper profile its own.
accepted :
    (validate_profile_authority live_profile ≡ ok tt)
    × (validate_profile_authority paper_profile ≡ ok tt)
    × (assert_profile_matches_command live_profile c1 ≡ ok tt)
    × (validate_command readers.digest readers.read_command (request "1") ≡ ok c1)
    × (validate_command readers.digest readers.read_command (request "2") ≡ ok c2)
    × (validate_command readers.digest readers.read_command (chosen "exec_cmd_1" "3")
        ≡ ok (live_command "exec_cmd_1" "3"))
    × (has_live_authority c1 ≡ true)
unfolding run get put enqueue_command validate_command payload_forbidden has_forbidden_key
    check_command_fields populate_command_id material supplied is_true prefix
    reject_secrets_and_coupling validate_command_authority has_live_authority no_names
    command_missing gate present strip is_space is_approved register_profile bad_checksum
    check_profile_fields is_live_enabled profile_missing unbound validate_profile
    validate_profile_authority wants_live_authority check_report_fields populate_report_id
    report_material report_payload validate_report call assert_profile_credential_slot
    assert_profile_matches_command check_live claim_command claim_next evict_if_needed evict_to
    record_report record_session same_evidence store_command optional set_default values lower
    lower_in lower_is same_codes new
accepted = (refl, refl, refl, refl, refl, refl, refl)

is_live_enabled-validate_example :
    is_live_enabled live_profile
    ≡ (live_profile.lane_mode == live && wants_live_authority live_profile)
is_live_enabled-validate_example = is_live_enabled-validate live_profile accepted.0

match-live_example :
    (is_live_enabled live_profile ≡ true)
    × (live_profile.tenant_id ≡ c1.tenant_id)
    × (live_profile.project_id ≡ c1.project_id)
    × (live_profile.lane_mode ≡ c1.lane_mode)
    × (live_profile.adapter_id ≡ some c1.adapter_id)
    × (live_profile.venue ≡ some c1.venue)
    × (live_profile.risk_profile_id ≡ c1.risk_profile_id)
    × (live_profile.credential_slot_ref ≡ c1.credential_slot_ref)
    × (live_profile.manual_review_id ≡ c1.manual_review_id)
    × (live_profile.data_tester_evidence_ref ≡ c1.data_tester_evidence_ref)
    × (live_profile.exec_tester_evidence_ref ≡ c1.exec_tester_evidence_ref)
    × (live_profile.reconciliation_evidence_ref ≡ c1.reconciliation_evidence_ref)
match-live_example = match-live live_profile c1 accepted.2 accepted.6

claim_next_takes_oldest_example :
    (s' : ExecutionLaneService) × (claim_next "12:00" "lane" "worker" waiting
      ≡ ok (claim_of "12:00" "worker" c1, s'))
    × (queue "lane" s' ≡ c2 ∷ [])
    × (get c1.command_id s'.commands ≡ some (claim_of "12:00" "worker" c1))
claim_next_takes_oldest_example =
    claim_next_takes_oldest "12:00" "lane" "worker" c1 (c2 ∷ []) waiting
      (run-new readers calls (some 1) (some 1)) tests.1

-- The calls that lead to the claimed state keep the invariant.
claimed_IsConsistent : IsConsistent claimed_state
claimed_IsConsistent =
    run-IsConsistent readers (claim "12:00" "exec_cmd_1" "worker" ∷ []) waiting
      (run-new readers calls (some 1) (some 1))

claim_lasts_example :
    held "worker" (
      get "exec_cmd_1"
        (run readers
          (claim "12:05" "exec_cmd_1" "other" ∷ report "exec_cmd_1" [] ∷ [])
          claimed_state).commands)
    ≡ true
claim_lasts_example =
    claim_lasts readers (claim "12:05" "exec_cmd_1" "other" ∷ report "exec_cmd_1" [] ∷ []) "worker"
      "exec_cmd_1" claimed_state claimed_IsConsistent refl tests.5

-- The calls that lead to the profiles keep the invariant.
registered-IsConsistent : IsConsistent registered
registered-IsConsistent = run-new readers (register [] ∷ []) (some 1) (some 1)

-- The first command is sent again after it was claimed.
enqueue_once_example :
    (c : ExecutionLaneCommand) × (enqueue_command readers (request "1") (run readers later once)
      ≡ ok (c, run readers later once))
    × (c.command_id ≡ "exec_cmd_1")
    × (get "exec_cmd_1" (run readers later once).commands ≡ some c)
enqueue_once_example =
    enqueue_once readers (request "1") c1 c1 registered once later live_profile
      registered-IsConsistent accepted.3 tests.2 tests.8 accepted.2

enqueue-live_example :
    (p : ExecutionLaneProfile) × (get c1.runtime_profile_id registered.profiles ≡ some p)
    × (is_live_enabled p ≡ true)
    × (p.venue ≡ some c1.venue)
    × (p.credential_slot_ref ≡ c1.credential_slot_ref)
    × (p.risk_profile_id ≡ c1.risk_profile_id)
enqueue-live_example =
    enqueue-live readers (request "1") c1 c1 registered once accepted.3 accepted.6 tests.2

-- The keys and ids that are new, and the id that is taken.
lookups :
    (get (index_key c2) once.idempotency_index ≡ none)
    × (get c2.command_id once.commands ≡ none)
    × (get (index_key (live_command "exec_cmd_1" "3")) claimed_state.idempotency_index ≡ none)
unfolding run get put enqueue_command validate_command payload_forbidden has_forbidden_key
    check_command_fields populate_command_id material supplied is_true prefix
    reject_secrets_and_coupling validate_command_authority has_live_authority no_names
    command_missing gate present strip is_space is_approved register_profile bad_checksum
    check_profile_fields is_live_enabled profile_missing unbound validate_profile
    validate_profile_authority wants_live_authority check_report_fields populate_report_id
    report_material report_payload validate_report call assert_profile_credential_slot
    assert_profile_matches_command check_live claim_command claim_next evict_if_needed evict_to
    record_report record_session same_evidence store_command optional set_default values lower
    lower_in lower_is same_codes new
lookups = (refl, refl, refl)

enqueue_appends_example :
    queue "lane" waiting
    ≡ (if c2.runtime_profile_id == "lane" then queue "lane" once ++ c2 ∷ [] else queue "lane" once)
enqueue_appends_example =
    enqueue_appends readers (request "2") c2 c2 once waiting "lane" accepted.4 refl lookups.0
      lookups.1 tests.3

abbrev second_report : ExecutionLaneReport
second_report = record (report_of []) { report_id = "second"; command_id = "exec_cmd_1" }

-- With room for one report and one session, a second of each is recorded.
recorded :
    (record_report readers "exec_cmd_1" second_payload reported_state
      ≡ ok (second_report, second_state))
    × (length reported_state.reports ≤ 1)
    × (length session_state.sessions ≤ 1)
    × (reported_state.max_reports ≡ some 1)
    × (session_state.max_sessions ≡ some 1)
unfolding run get put enqueue_command validate_command payload_forbidden has_forbidden_key
    check_command_fields populate_command_id material supplied is_true prefix
    reject_secrets_and_coupling validate_command_authority has_live_authority no_names
    command_missing gate present strip is_space is_approved register_profile bad_checksum
    check_profile_fields is_live_enabled profile_missing unbound validate_profile
    validate_profile_authority wants_live_authority check_report_fields populate_report_id
    report_material report_payload validate_report call assert_profile_credential_slot
    assert_profile_matches_command check_live claim_command claim_next evict_if_needed evict_to
    record_report record_session same_evidence store_command optional set_default values lower
    lower_in lower_is same_codes new
recorded = (refl, omega arith, omega arith, refl, refl)

record_report_bounded_example :
    (get "second" second_state.reports ≡ some second_report)
    × (length second_state.reports ≤ 1)
    × (second_state.reports
        ≡ drop
            (length (put "second" second_report reported_state.reports) - 1)
            (put "second" second_report reported_state.reports))
record_report_bounded_example =
    record_report_bounded readers "exec_cmd_1" second_payload second_report reported_state
      second_state 1 recorded.3 (omega arith) recorded.1 recorded.0
