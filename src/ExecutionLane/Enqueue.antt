-- ===== src/ExecutionLane/Enqueue.antt =====
-- `enqueue_command` of packages/execution_lane/service.py: idempotency keys, the place of a new
-- command in the queue, the profile that a live command needs, and ids that clients choose.
use nautilus_builder.Prelude.{
  true, none, some, String, List, [], ◌∷◌, ◌++◌, ok, or_raise, >>=-eq-ok, or_raise-eq-ok, ◌==◌,
  string_eq, pair_eq, ◌≡◌, refl, arith, if◌then◌else◌, select, select-append,
}
use mathlib.Core.List.{append-nil}
use nautilus_builder.Prelude.Dict.{values, get, put}
use nautilus_builder.Prelude.Dict.Laws.{put_new, values-append}
use nautilus_builder.Json.{Payload}
use nautilus_builder.ExecutionLane.Profile.{ExecutionLaneProfile, is_live_enabled}
use nautilus_builder.ExecutionLane.Command.{
  ExecutionLaneCommand, queued, status_eq, has_live_authority, validate_command,
}
use nautilus_builder.ExecutionLane.Service.{
  Readers, ExecutionLaneService, is_queued_for, assert_profile_matches_command, store_command,
  enqueue_command,
}
use nautilus_builder.ExecutionLane.Authority.{match-live}
use nautilus_builder.ExecutionLane.Queue.{queue}

abbrev pub index_key : ExecutionLaneCommand → String × String
index_key c = (c.runtime_profile_id, c.idempotency_key)

-- What a call that returned has passed.
pub enqueue_inv :
    (r : Readers) (d : Payload) (c : ExecutionLaneCommand) (s s' : ExecutionLaneService)
    → enqueue_command r d s ≡ ok (c, s')
    → (v : ExecutionLaneCommand) × (p : ExecutionLaneProfile) × (validate_command r.digest
          r.read_command d
        ≡ ok v)
      × (get v.runtime_profile_id s.profiles ≡ some p)
      × (assert_profile_matches_command p v ≡ ok tt)
      × (store_command v s ≡ ok (c, s'))
unfolding enqueue_command
enqueue_inv r d c s s' h =
    let (v, e₁, k₁) = >>=-eq-ok (validate_command r.digest r.read_command d) _ h in
    let (p, e₂, k₂) = >>=-eq-ok (or_raise (get v.runtime_profile_id s.profiles) _) _ k₁ in
    let (_, e₃, k₃) = >>=-eq-ok (assert_profile_matches_command p v) _ k₂ in
    (v, p, e₁, or_raise-eq-ok _ _ p e₂, e₃, k₃)

pub enqueue_ok :
    (r : Readers) (d : Payload) (v : ExecutionLaneCommand) (p : ExecutionLaneProfile)
    (s : ExecutionLaneService)
    → validate_command r.digest r.read_command d ≡ ok v
    → get v.runtime_profile_id s.profiles ≡ some p
    → assert_profile_matches_command p v ≡ ok tt
    → enqueue_command r d s ≡ store_command v s
unfolding enqueue_command
enqueue_ok r d v p s e₁ e₂ e₃ = rw (e₁, e₂, e₃) refl

-- A command that asks for live authority is only accepted where the profile that it names is
-- registered, live-enabled and of the same venue, credential slot and risk profile.
pub enqueue-live :
    (r : Readers) (d : Payload) (v c : ExecutionLaneCommand) (s s' : ExecutionLaneService)
    → validate_command r.digest r.read_command d ≡ ok v
    → has_live_authority v ≡ true
    → enqueue_command r d s ≡ ok (c, s')
    → (p : ExecutionLaneProfile) × (get v.runtime_profile_id s.profiles ≡ some p)
      × (is_live_enabled p ≡ true)
      × (p.venue ≡ some v.venue)
      × (p.credential_slot_ref ≡ v.credential_slot_ref)
      × (p.risk_profile_id ≡ v.risk_profile_id)
enqueue-live r d v c s s' e a h =
    let (w, p, e₁, e₂, e₃, _) = enqueue_inv r d c s s' h in
    let same : w ≡ v = ground arith in
    let m = match-live p v (rw same at e₃) a in (p, rw same at e₂, m.0, m.5, m.7, m.6)

store_command_fresh :
    (v c : ExecutionLaneCommand) (s s' : ExecutionLaneService)
    → store_command v s ≡ ok (c, s')
    → get (index_key v) s.idempotency_index ≡ none
    → (c ≡ v) × (s'.commands ≡ put v.command_id v s.commands)
unfolding store_command
store_command_fresh v c s s' h f = ground arith

enqueue_fresh :
    (r : Readers) (d : Payload) (v c : ExecutionLaneCommand) (s s' : ExecutionLaneService)
    → validate_command r.digest r.read_command d ≡ ok v
    → enqueue_command r d s ≡ ok (c, s')
    → get (index_key v) s.idempotency_index ≡ none
    → (c ≡ v) × (s'.commands ≡ put v.command_id v s.commands)
enqueue_fresh r d v c s s' e h f =
    let (w, p, e₁, _, _, k) = enqueue_inv r d c s s' h in
    let same : w ≡ v = ground arith in store_command_fresh v c s s' (rw same at k) f

queue_end :
    (v : ExecutionLaneCommand) (profile : String) (xs : List ExecutionLaneCommand)
    → v.status ≡ queued
    → xs ++ select (is_queued_for profile) (values ((v.command_id, v) ∷ []))
      ≡ (if v.runtime_profile_id == profile then xs ++ v ∷ [] else xs)
unfolding values
queue_end v profile xs q = ground (arith, append-nil xs)

-- A queued command with a new idempotency key and a new id goes to the end of its profile's queue,
-- and every other profile's queue stays as it is.
pub enqueue_appends :
    (r : Readers) (d : Payload) (v c : ExecutionLaneCommand) (s s' : ExecutionLaneService)
    (profile : String)
    → validate_command r.digest r.read_command d ≡ ok v
    → v.status ≡ queued
    → get (index_key v) s.idempotency_index ≡ none
    → get v.command_id s.commands ≡ none
    → enqueue_command r d s ≡ ok (c, s')
    → queue profile s'
      ≡ (if v.runtime_profile_id == profile then queue profile s ++ v ∷ [] else queue profile s)
enqueue_appends r d v c s s' profile e q f g h =
    let (_, e') = enqueue_fresh r d v c s s' e h f in
    rw (e', put_new v.command_id v s.commands g, values-append s.commands ((v.command_id, v) ∷ []))
      (rw (select-append (is_queued_for profile) (values s.commands)) (queue_end v profile _ q))
