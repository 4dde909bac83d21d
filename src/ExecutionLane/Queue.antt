-- ===== src/ExecutionLane/Queue.antt =====
-- The commands of one runtime profile as a first-in first-out queue: what `claim_next`,
-- `claim_command`, `enqueue_command` and `record_report` do to it.
use nautilus_builder.Prelude.{
  Bool, true, none, some, String, List, [], ◌∷◌, ok, err, string_eq, pair_eq, ◌≡◌, refl, arith,
  select, find, Option-cases, inl, inr,
}
use mathlib.Core.Path.{subst}
use nautilus_builder.Prelude.Dict.{values, get, put}
use nautilus_builder.Prelude.Dict.Laws.{get-Entries, get-put_self}
use nautilus_builder.Prelude.Dict.Unique.{select-put, get-find}
use nautilus_builder.ExecutionLane.Errors.{none_queued, not_queued}
use nautilus_builder.ExecutionLane.Command.{ExecutionLaneCommand, queued, claimed, status_eq}
use nautilus_builder.ExecutionLane.Service.{
  ExecutionLaneService, is_queued_for, claim_command, claim_next,
}
use nautilus_builder.ExecutionLane.Invariant.{IsConsistent}

-- The abstract queue of a profile: its commands that wait, the oldest first.
abbrev pub queue : String → ExecutionLaneService → List ExecutionLaneCommand
queue profile s = select (is_queued_for profile) (values s.commands)

abbrev pub claim_of : String → String → ExecutionLaneCommand → ExecutionLaneCommand
claim_of now worker c = record c {
  status = claimed;
  claimed_by = some worker;
  claimed_at = some now;
}

abbrev key : ExecutionLaneCommand → String
key c = c.command_id

abbrev store : ExecutionLaneCommand → ExecutionLaneService → ExecutionLaneService
store c s = record s { commands = put c.command_id c s.commands }

module _ {ℓ} {A : Type ℓ} (p : A → Bool) where
  find-select_nil : (xs : List A) → select p xs ≡ [] → find p xs ≡ none
  find-select_nil [] h = refl
  find-select_nil (x ∷ xs) h = ground (arith, find-select_nil xs)

  find_passes : (x : A) (xs : List A) → find p xs ≡ some x → p x ≡ true
  find_passes x [] h = cc
  find_passes x (y ∷ xs) h = ground (arith, find_passes x xs)

claim_command_queued :
    (now worker : String) (c : ExecutionLaneCommand) (s : ExecutionLaneService)
    → get c.command_id s.commands ≡ some c
    → c.status ≡ queued
    → claim_command now c.command_id worker s
      ≡ ok (claim_of now worker c, store (claim_of now worker c) s)
unfolding claim_command
claim_command_queued now worker c s g w = rw g (ground arith)

-- On a queue that is not empty `claim_next` takes the oldest command of the profile: it returns it as
-- claimed by the worker, stores it so, and leaves the rest of the queue in its order.
pub claim_next_takes_oldest :
    (now profile worker : String) (c : ExecutionLaneCommand) (rest : List ExecutionLaneCommand)
    (s : ExecutionLaneService)
    → IsConsistent s
    → queue profile s ≡ c ∷ rest
    → (s' : ExecutionLaneService) × (claim_next now profile worker s
        ≡ ok (claim_of now worker c, s'))
      × (queue profile s' ≡ rest)
      × (get c.command_id s'.commands ≡ some (claim_of now worker c))
unfolding claim_next
claim_next_takes_oldest now profile worker c rest s h q =
    let c' = claim_of now worker c in
    let (f, q') =
      select-put key (is_queued_for profile) c c' rest s.commands h.ids_once h.by_id (ground arith)
        q in
    let waits = find_passes (is_queued_for profile) c (values s.commands) f in
    let g = get-find key (is_queued_for profile) c s.commands h.ids_once h.by_id f in
    (
      store c' s,
      rw f (claim_command_queued now worker c s g (ground arith)),
      q',
      get-put_self c.command_id c' s.commands,
    )

-- On an empty queue `claim_next` raises.
pub claim_next_none :
    (now profile worker : String) (s : ExecutionLaneService)
    → queue profile s ≡ []
    → claim_next now profile worker s ≡ err none_queued
unfolding claim_next
claim_next_none now profile worker s q =
    rw (find-select_nil (is_queued_for profile) (values s.commands) q) refl

-- What a claim that returned has found and done.
claim_command_inv :
    (now id worker : String) (c : ExecutionLaneCommand) (s s' : ExecutionLaneService)
    → claim_command now id worker s ≡ ok (c, s')
    → (o : ExecutionLaneCommand) × (get id s.commands ≡ some o)
      × (o.status ≡ queued)
      × (c ≡ claim_of now worker o)
      × (s' ≡ store (claim_of now worker o) s)
unfolding claim_command
claim_command_inv now id worker c s s' e = elim (Option-cases (get id s.commands)) [
  | inl missing ↦ ground arith
  | inr (o, found) ↦ (o, found, ground arith, ground arith, ground arith)
]

claim_command_claimed :
    (now id worker : String) (c : ExecutionLaneCommand) (s : ExecutionLaneService)
    → get id s.commands ≡ some c
    → c.status ≡ claimed
    → claim_command now id worker s ≡ err not_queued
unfolding claim_command
claim_command_claimed now id worker c s g w = rw g (ground arith)

-- A command that one worker has claimed cannot be claimed again, by any worker at any time, as long
-- as nothing else is called in between.
pub claim_exclusive :
    (now now' id worker worker' : String) (c : ExecutionLaneCommand) (s s' : ExecutionLaneService)
    → IsConsistent s
    → claim_command now id worker s ≡ ok (c, s')
    → claim_command now' id worker' s' ≡ err not_queued
claim_exclusive now now' id worker worker' c s s' h e =
    let (o, found, _, _, e') = claim_command_inv now id worker c s s' e in
    let own : o.command_id ≡ id = get-Entries _ id o s.commands h.by_id found in
    let c' = claim_of now worker o in
    rw e' (
      claim_command_claimed now' id worker' c' (store c' s)
        (subst (λ k. get k (put o.command_id c' s.commands) ≡ some c') own
          (get-put_self o.command_id c' s.commands))
        refl)
