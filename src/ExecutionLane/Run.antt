-- ===== src/ExecutionLane/Run.antt =====
-- Sequences of calls of `ExecutionLaneService`, in any order and with any payloads; a call that
-- raises changes nothing. What holds of every state that they reach.
use nautilus_builder.Prelude.{
  ℕ, true, Option, some, String, List, [], ◌∷◌, Result, ok, err, ◌≡◌, refl, sym, inl, inr,
  Result-cases, string_eq,
}
use mathlib.Core.Path.{subst}
use nautilus_builder.Prelude.Dict.{Dict, get, put}
use nautilus_builder.Prelude.Dict.Laws.{get-Entries}
use nautilus_builder.Json.{Payload}
use nautilus_builder.ExecutionLane.Errors.{Error}
use nautilus_builder.ExecutionLane.Profile.{live, present, mode_eq}
use nautilus_builder.ExecutionLane.Command.{ExecutionLaneCommand, has_live_authority, is_approved}
use nautilus_builder.ExecutionLane.Slots.{ExecutionLaneSession, ExecutionCredentialSlot}
use nautilus_builder.ExecutionLane.Credentials.{
  CredentialError, Hashing, ExecutionCredentialSlotRequest, SlotState, validate_request,
  create_slot, create_credential_slot,
}
use nautilus_builder.ExecutionLane.Service.{
  Readers, ExecutionLaneService, new, register_profile, enqueue_command, claim_command, claim_next,
  record_report, record_session,
}
use nautilus_builder.ExecutionLane.Authority.{authority-validate_command}
use nautilus_builder.ExecutionLane.Invariant.{
  IsConsistent, Keeps, new-IsConsistent, register_profile-Keeps, enqueue_command-Keeps,
  claim_command-Keeps, claim_next-Keeps, record_report-Keeps, record_session-IsConsistent,
}

pub data Call : Type 0 where
  register enqueue : Payload → Call
  claim : String → String → String → Call
  next : String → String → String → Call
  report : String → Payload → Call
  session : ExecutionLaneSession → Call
  -- `create_credential_slot`, with the file of the store as it is then.
  new_slot : Hashing → ExecutionCredentialSlotRequest → Option String → Call

abbrev pub after {ℓ} :
    {A : Type ℓ}
    → ExecutionLaneService
    → Result Error (A × ExecutionLaneService)
    → ExecutionLaneService
after s (ok (_, s')) = s'
after s (err _) = s

abbrev pub after_slot :
    ExecutionLaneService
    → Result CredentialError (ExecutionCredentialSlot × SlotState)
    → ExecutionLaneService
after_slot s (ok (_, (s', _))) = s'
after_slot s (err _) = s

unfoldable pub call : Readers → Call → ExecutionLaneService → ExecutionLaneService
call r (register d) s = after s (register_profile r d s)
call r (enqueue d) s = after s (enqueue_command r d s)
call r (claim now id worker) s = after s (claim_command now id worker s)
call r (next now profile worker) s = after s (claim_next now profile worker s)
call r (report id d) s = after s (record_report r id d s)
call r (session x) s = record_session x s
call r (new_slot h q file) s = after_slot s (create_credential_slot h q (s, file))

unfoldable pub run : Readers → List Call → ExecutionLaneService → ExecutionLaneService
unfolding call
run r [] s = s
run r (c ∷ cs) s = run r cs (call r c s)

after-IsConsistent {ℓ} :
    {A : Type ℓ} (s : ExecutionLaneService) (m : Result Error (A × ExecutionLaneService))
    → IsConsistent s
    → Keeps m
    → IsConsistent (after s m)
after-IsConsistent s (ok (a, s')) h k = k
after-IsConsistent s (err e) h k = h

-- A new slot changes the slots alone.
pub new_slot-cases :
    (h : Hashing) (q : ExecutionCredentialSlotRequest) (file : Option String)
    (s : ExecutionLaneService)
    → (slots : Dict String ExecutionCredentialSlot) × (after_slot s
          (create_credential_slot h q (s, file))
        ≡ record s { credential_slots = slots })
unfolding create_credential_slot
new_slot-cases h q file s = elim (Result-cases (validate_request q)) [
  | inl (v, valid) ↦
      let slot = (create_slot h v file).0 in
      (
        put slot.credential_slot_ref slot s.credential_slots,
        rw (valid, create_credential_slot) refl,
      )
  | inr (e, refused) ↦ (s.credential_slots, rw (refused, create_credential_slot) refl)
]

pub call-IsConsistent :
    (r : Readers) (c : Call) (s : ExecutionLaneService) → IsConsistent s → IsConsistent (call r c s)
unfolding call
call-IsConsistent r (register d) s h =
    after-IsConsistent s (register_profile r d s) h (register_profile-Keeps r d s h)
call-IsConsistent r (enqueue d) s h =
    after-IsConsistent s (enqueue_command r d s) h (enqueue_command-Keeps r d s h)
call-IsConsistent r (claim now id worker) s h =
    after-IsConsistent s (claim_command now id worker s) h (claim_command-Keeps now id worker s h)
call-IsConsistent r (next now p worker) s h =
    after-IsConsistent s (claim_next now p worker s) h (claim_next-Keeps now p worker s h)
call-IsConsistent r (report id d) s h =
    after-IsConsistent s (record_report r id d s) h (record_report-Keeps r id d s h)
call-IsConsistent r (session x) s h = record_session-IsConsistent x s h
call-IsConsistent r (new_slot k q file) s h =
    subst IsConsistent (sym (new_slot-cases k q file s).1) (record {
      ids_once = h.ids_once;
      by_id = h.by_id;
      commands_valid = h.commands_valid;
      profiles_valid = h.profiles_valid;
      indexed = h.indexed;
    })

pub run-IsConsistent :
    (r : Readers) (cs : List Call) (s : ExecutionLaneService)
    → IsConsistent s
    → IsConsistent (run r cs s)
unfolding run
run-IsConsistent r [] s h = h
run-IsConsistent r (c ∷ cs) s h = run-IsConsistent r cs (call r c s) (call-IsConsistent r c s h)

-- Whatever the calls on a new service, of credential slots also, its commands are stored once each and
-- under their own ids, every stored command and profile has passed the authority checks of its
-- validator, and every id of the idempotency index is that of a stored command.
pub run-new :
    (r : Readers) (cs : List Call) (mr ms : Option ℕ) → IsConsistent (run r cs (new mr ms))
run-new r cs mr ms = run-IsConsistent r cs (new mr ms) (new-IsConsistent mr ms)

-- Whatever the calls on a new service, of credential slots also, a stored command with any live authority is in live mode, has
-- all three flags of it, an approved risk decision, reconciliation, a promotion approval and every
-- evidence reference.
pub run-authority :
    (r : Readers) (cs : List Call) (mr ms : Option ℕ) (id : String) (c : ExecutionLaneCommand)
    → get id (run r cs (new mr ms)).commands ≡ some c
    → has_live_authority c ≡ true
    → (c.lane_mode ≡ live)
      × (c.live_trading_enabled ≡ true)
      × (c.execution_authority ≡ true)
      × (c.may_submit_order ≡ true)
      × (c.reconciliation_required ≡ true)
      × (present c.promotion_approval_id ≡ true)
      × (present c.risk_profile_id ≡ true)
      × (present c.credential_slot_ref ≡ true)
      × (present c.manual_review_id ≡ true)
      × (present c.data_tester_evidence_ref ≡ true)
      × (present c.exec_tester_evidence_ref ≡ true)
      × (present c.reconciliation_evidence_ref ≡ true)
      × (is_approved c.risk_decision ≡ true)
run-authority r cs mr ms id c found =
    authority-validate_command c
      (get-Entries _ id c (run r cs (new mr ms)).commands (run-new r cs mr ms).commands_valid found)
