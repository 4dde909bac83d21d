-- ===== src/ExecutionLane/Resend.antt =====
-- `enqueue_command` of packages/execution_lane/service.py for a payload that is sent again later.
use mathlib.Core.Path.{subst}
use nautilus_builder.Prelude.{
  some, String, List, [], ◌∷◌, Result, ok, or_raise, or_raise-eq-ok, >>=-eq-ok, string_eq, pair_eq,
  ◌≡◌, refl, sym, ◌∙◌, arith, find, Option-cases, Result-cases, inl, inr,
}
use nautilus_builder.Prelude.Dict.{get, values}
use nautilus_builder.Prelude.Dict.Laws.{get-put, get-put_self, get-Entries, known-get}
use nautilus_builder.Json.{Payload}
use nautilus_builder.ExecutionLane.Errors.{Error, key_error}
use nautilus_builder.ExecutionLane.Profile.{ExecutionLaneProfile}
use nautilus_builder.ExecutionLane.Command.{ExecutionLaneCommand, validate_command}
use nautilus_builder.ExecutionLane.Service.{
  Readers, ExecutionLaneService, assert_profile_matches_command, store_command, enqueue_command,
  register_profile, claim_command, claim_next, record_report, record_session, is_queued_for,
}
use nautilus_builder.ExecutionLane.Invariant.{IsConsistent, Keeps, enqueue_command-Keeps}
use nautilus_builder.ExecutionLane.Enqueue.{index_key, enqueue_inv, enqueue_ok}
use nautilus_builder.ExecutionLane.Run.{
  Call, register, enqueue, claim, next, report, session, new_slot, after, call, run, new_slot-cases,
  run-IsConsistent,
}

module _ (k : String × String) (id : String) where
  -- The key stays that of the command.
  abbrev HasKey : ExecutionLaneService → Type 0
  HasKey s = get k s.idempotency_index ≡ some id

  store_command-HasKey :
      (v c : ExecutionLaneCommand) (s s' : ExecutionLaneService)
      → store_command v s ≡ ok (c, s')
      → HasKey s
      → HasKey s'
  unfolding store_command
  store_command-HasKey v c s s' h e = ground (
    arith,
    get-put (index_key v) k v.command_id s.idempotency_index,
    pair_eq.equal_iff (index_key v) k,
  )

  enqueue-HasKey :
      (r : Readers) (d : Payload) (s : ExecutionLaneService)
      → HasKey s
      → HasKey (after s (enqueue_command r d s))
  enqueue-HasKey r d s e = elim (Result-cases (enqueue_command r d s)) [
    | inl ((c, s'), done) ↦
        let (v, _, _, _, _, stored) = enqueue_inv r d c s s' done in
        rw done (store_command-HasKey v c s s' stored e)
    | inr (raised, refused) ↦ rw refused e
  ]

  claim-HasKey :
      (now i worker : String) (s : ExecutionLaneService)
      → HasKey s
      → HasKey (after s (claim_command now i worker s))
  unfolding claim_command
  claim-HasKey now i worker s e = ground arith

  call-HasKey : (r : Readers) (c : Call) (s : ExecutionLaneService) → HasKey s → HasKey (call r c s)
  unfolding call register_profile claim_next record_report record_session
  call-HasKey r (register d) s e = ground arith
  call-HasKey r (enqueue d) s e = enqueue-HasKey r d s e
  call-HasKey r (claim now i worker) s e = claim-HasKey now i worker s e
  call-HasKey r (next now p worker) s e =
      elim (Option-cases (find (is_queued_for p) (values s.commands))) [
        | inl missing ↦ rw missing e
        | inr (o, found) ↦ rw found (claim-HasKey now o.command_id worker s e)
      ]
  call-HasKey r (report i d) s e = ground arith
  call-HasKey r (session x) s e = e
  call-HasKey r (new_slot h q file) s e = subst HasKey (sym (new_slot-cases h q file s).1) e

  run-HasKey :
      (r : Readers) (cs : List Call) (s : ExecutionLaneService) → HasKey s → HasKey (run r cs s)
  unfolding run
  run-HasKey r [] s e = e
  run-HasKey r (c ∷ cs) s e = run-HasKey r cs (call r c s) (call-HasKey r c s e)

-- What is stored of a command under its key.
stored-HasKey :
    (v c : ExecutionLaneCommand) (s s' : ExecutionLaneService)
    → IsConsistent s
    → store_command v s ≡ ok (c, s')
    → HasKey (index_key v) c.command_id s'
unfolding store_command
stored-HasKey v c s s' h e = elim (Option-cases (get (index_key v) s.idempotency_index)) [
  | inl fresh ↦ ground (arith, get-put_self (index_key v) v.command_id s.idempotency_index)
  | inr (id, found) ↦
      let (o, present, same) =
        >>=-eq-ok (or_raise (get id s.commands) key_error) _ (rw (found, store_command) at e) in
      let own : o.command_id ≡ id =
        get-Entries _ id o s.commands h.by_id
          (or_raise-eq-ok (get id s.commands) key_error o present) in
      let kept : ◌≡◌ {A = Result Error (ExecutionLaneCommand × ExecutionLaneService)} (ok (o, s))
          (ok (c, s')) =
        same in
      ground (arith, found, own, kept)
]

store_command_known :
    (v now : ExecutionLaneCommand) (id : String) (s : ExecutionLaneService)
    → get (index_key v) s.idempotency_index ≡ some id
    → get id s.commands ≡ some now
    → store_command v s ≡ ok (now, s)
unfolding store_command
store_command_known v now id s e f = rw (e, store_command) (rw (f, store_command) refl)

-- A payload that was accepted and is sent again, after any calls of the service, while a profile that
-- its command matches is registered, gets the command that it got at first, in the state that those
-- calls left it in, a claimed or a reported one too; and the service does not change.
pub enqueue_once :
    (r : Readers) (d : Payload) (v c : ExecutionLaneCommand) (s s' : ExecutionLaneService)
    (cs : List Call) (p : ExecutionLaneProfile)
    → IsConsistent s
    → validate_command r.digest r.read_command d ≡ ok v
    → enqueue_command r d s ≡ ok (c, s')
    → get v.runtime_profile_id (run r cs s').profiles ≡ some p
    → assert_profile_matches_command p v ≡ ok tt
    → (now : ExecutionLaneCommand) × (enqueue_command r d (run r cs s') ≡ ok (now, run r cs s'))
      × (now.command_id ≡ c.command_id)
      × (get c.command_id (run r cs s').commands ≡ some now)
enqueue_once r d v c s s' cs p h e done registered matches =
    let (w, _, e', _, _, stored) = enqueue_inv r d c s s' done in
    let same : w ≡ v = ground arith in
    let t = run r cs s' in
    let consistent = run-IsConsistent r cs s' (subst Keeps done (enqueue_command-Keeps r d s h)) in
    let key =
      run-HasKey (index_key v) c.command_id r cs s'
        (stored-HasKey v c s s' h (subst (λ w. store_command w s ≡ ok (c, s')) same stored)) in
    let (now, found) =
      known-get c.command_id t.commands
        (get-Entries _ (index_key v) c.command_id t.idempotency_index consistent.indexed key) in
    (
      now,
      enqueue_ok r d v p t e registered matches
          ∙ store_command_known v now c.command_id t key found,
      get-Entries _ c.command_id now t.commands consistent.by_id found,
      found,
    )
