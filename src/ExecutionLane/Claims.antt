-- ===== src/ExecutionLane/Claims.antt =====
-- How long a claim lasts: no call but `enqueue_command` takes a claimed command from its worker.
use nautilus_builder.Prelude.{
  Bool, true, false, not, ◌&&◌, Option, none, some, String, List, [], ◌∷◌, ◌==◌, string_eq,
  optional_eq, ◌≡◌, arith, eq_iff, find, ◌||◌, Option-cases, inl, inr,
}
use nautilus_builder.Prelude.Dict.{Dict, values, get, put}
use nautilus_builder.Prelude.Dict.Laws.{get-Entries, get-put}
use nautilus_builder.Json.{Payload}
use nautilus_builder.ExecutionLane.Command.{ExecutionLaneCommand, queued, reported, status_eq}
use nautilus_builder.ExecutionLane.Service.{
  Readers, ExecutionLaneService, register_profile, claim_command, claim_next, is_queued_for,
  record_report, record_session,
}
use nautilus_builder.ExecutionLane.Invariant.{IsConsistent}
use mathlib.Core.Path.{subst, sym}
use nautilus_builder.ExecutionLane.Run.{
  new_slot-cases, new_slot, Call, register, enqueue, claim, next, report, session, after, call, run,
  call-IsConsistent,
}
use nautilus_builder.ExecutionLane.Queue.{claim_of}

-- The command is there, no longer queued, and the worker's.
abbrev pub held : String → Option ExecutionLaneCommand → Bool
held worker none = false
held worker (some c) = not (c.status == queued) && c.claimed_by == some worker

abbrev pub enqueues : Call → Bool
enqueues (enqueue _) = true
enqueues _ = false

abbrev pub without_enqueue : List Call → Bool
without_enqueue [] = true
without_enqueue (c ∷ cs) = not (enqueues c) && without_enqueue cs

-- Putting one command leaves the others as they are held, and itself if it is held as put.
held-put :
    (w id : String) (c : ExecutionLaneCommand) (d : Dict String ExecutionLaneCommand)
    → held w (get id d) ≡ true
    → (not (c.command_id == id) || held w (some c)) ≡ true
    → held w (get id (put c.command_id c d)) ≡ true
held-put w id c d h k = rw (get-put c.command_id id c d) (ground arith)

claim_kept :
    (now k w worker id : String) (s : ExecutionLaneService)
    → IsConsistent s
    → held w (get id s.commands) ≡ true
    → held w (get id (after s (claim_command now k worker s)).commands) ≡ true
unfolding claim_command
claim_kept now k w worker id s h e = elim (Option-cases (get k s.commands)) [
  | inl missing ↦ rw missing e
  | inr (o, found) ↦
      let own : o.command_id ≡ k = get-Entries _ k o s.commands h.by_id found in
      ground (arith, held-put w id (claim_of now worker o) s.commands, eq_iff o.command_id id)
]

claim_next_kept :
    (now p w worker id : String) (s : ExecutionLaneService)
    → IsConsistent s
    → held w (get id s.commands) ≡ true
    → held w (get id (after s (claim_next now p worker s)).commands) ≡ true
unfolding claim_next
claim_next_kept now p w worker id s h e =
    elim (Option-cases (find (is_queued_for p) (values s.commands))) [
      | inl missing ↦ rw missing e
      | inr (o, found) ↦ rw found (claim_kept now o.command_id w worker id s h e)
    ]

report_kept :
    (r : Readers) (k w id : String) (d : Payload) (s : ExecutionLaneService)
    → IsConsistent s
    → held w (get id s.commands) ≡ true
    → held w (get id (after s (record_report r k d s)).commands) ≡ true
unfolding record_report
report_kept r k w id d s h e = elim (Option-cases (get k s.commands)) [
  | inl missing ↦ rw missing e
  | inr (o, found) ↦
      let own : o.command_id ≡ k = get-Entries _ k o s.commands h.by_id found in
      rw found (
        ground (
          arith,
          held-put w id (record o { status = reported }) s.commands,
          eq_iff o.command_id id,
        ))
]

register_kept :
    (r : Readers) (w id : String) (d : Payload) (s : ExecutionLaneService)
    → held w (get id s.commands) ≡ true
    → held w (get id (after s (register_profile r d s)).commands) ≡ true
unfolding register_profile
register_kept r w id d s e = ground arith

call_kept :
    (r : Readers) (c : Call) (w id : String) (s : ExecutionLaneService)
    → IsConsistent s
    → enqueues c ≡ false
    → held w (get id s.commands) ≡ true
    → held w (get id (call r c s).commands) ≡ true
unfolding call record_session
call_kept r (register d) w id s h n e = register_kept r w id d s e
call_kept r (enqueue d) w id s h n e = cc
call_kept r (claim now k worker) w id s h n e = claim_kept now k w worker id s h e
call_kept r (next now p worker) w id s h n e = claim_next_kept now p w worker id s h e
call_kept r (report k d) w id s h n e = report_kept r k w id d s h e
call_kept r (session x) w id s h n e = e
call_kept r (new_slot k q file) w id s h n e =
    subst (λ t. held w (get id t.commands) ≡ true) (sym (new_slot-cases k q file s).1) e

-- From a state of the invariant, a claimed command stays its worker's through any calls but those of
-- `enqueue_command`: it is still stored, not queued again, and under the same worker.
pub claim_lasts :
    (r : Readers) (cs : List Call) (w id : String) (s : ExecutionLaneService)
    → IsConsistent s
    → without_enqueue cs ≡ true
    → held w (get id s.commands) ≡ true
    → held w (get id (run r cs s).commands) ≡ true
unfolding run
claim_lasts r [] w id s h n e = e
claim_lasts r (c ∷ cs) w id s h n e =
    claim_lasts r cs w id (call r c s) (call-IsConsistent r c s h) (ground arith)
      (call_kept r c w id s h (ground arith) e)
