-- ===== src/ExecutionLane/Invariant.antt =====
-- The invariant of `ExecutionLaneService`, and that each method keeps it.
use nautilus_builder.Prelude.{
  ℕ, true, Option, some, String, Result, ok, err, ◌>>=◌, raise_if, or_raise, or_raise-eq-ok, not,
  ◌==◌, string_eq, pair_eq, ◌≡◌, refl, arith, inl, inr, Option-cases, find,
}
use nautilus_builder.Prelude.Dict.{values, get, put}
use nautilus_builder.Prelude.Dict.Laws.{
  Entries, get-Entries, put-Entries, Entries-mono, known, known-put, known-put_self,
}
use nautilus_builder.Prelude.Dict.Unique.{Unique, put-Unique, KeyedBy}
use nautilus_builder.Json.{Payload}
use nautilus_builder.ExecutionLane.Errors.{Error}
use nautilus_builder.ExecutionLane.Profile.{
  ExecutionLaneProfile, validate_profile, validate_profile_authority,
}
use nautilus_builder.ExecutionLane.Command.{
  ExecutionLaneCommand, ExecutionCommandStatus, validate_command, validate_command_authority,
  has_live_authority, command_missing, queued, claimed, reported, status_eq,
}
use nautilus_builder.ExecutionLane.Report.{validate_report, report_payload}
use nautilus_builder.ExecutionLane.Slots.{ExecutionLaneSession}
use nautilus_builder.ExecutionLane.Service.{
  Readers, ExecutionLaneService, new, register_profile, store_command, enqueue_command,
  claim_command, claim_next, is_queued_for, record_report, record_session,
  assert_profile_credential_slot, assert_profile_matches_command,
}

pub record IsConsistent (s : ExecutionLaneService) : Type 0 where
  pub ids_once : Unique s.commands
  pub by_id : KeyedBy (λ c. c.command_id) s.commands
  pub commands_valid : Entries (λ k c. validate_command_authority c ≡ ok tt) s.commands
  pub profiles_valid :
      Entries
        (λ k p. (p.runtime_profile_id ≡ k) × (validate_profile_authority p ≡ ok tt))
        s.profiles
  pub indexed : Entries (λ k id. known id s.commands ≡ true) s.idempotency_index

-- A method keeps the invariant: where it returns, the new state has it.
abbrev pub Keeps {ℓ} : {A : Type ℓ} → Result Error (A × ExecutionLaneService) → Type 0
Keeps (ok (_, s')) = IsConsistent s'
Keeps (err _) = Unit

pub new-IsConsistent : (mr ms : Option ℕ) → IsConsistent (new mr ms)
unfolding new
new-IsConsistent mr ms = record {
  ids_once = tt;
  by_id = tt;
  commands_valid = tt;
  profiles_valid = tt;
  indexed = tt;
}

-- The index still names known commands when one more is put.
still_indexed :
    (c : ExecutionLaneCommand) (s : ExecutionLaneService)
    → IsConsistent s
    → Entries (λ k id. known id (put c.command_id c s.commands) ≡ true) s.idempotency_index
still_indexed c s h =
    Entries-mono _ _ s.idempotency_index (λ k id. known-put c.command_id id c s.commands) h.indexed

-- Putting a valid command, of any status, under its own id.
put_command-IsConsistent :
    (c : ExecutionLaneCommand) (s s' : ExecutionLaneService)
    → IsConsistent s
    → validate_command_authority c ≡ ok tt
    → s'.commands ≡ put c.command_id c s.commands
    → s'.profiles ≡ s.profiles
    → Entries (λ k id. known id (put c.command_id c s.commands) ≡ true) s'.idempotency_index
    → IsConsistent s'
put_command-IsConsistent c s s' h v e₁ e₂ i = record {
  ids_once = rw e₁ (put-Unique c.command_id c s.commands h.ids_once);
  by_id = rw e₁ (put-Entries _ c.command_id c s.commands h.by_id refl);
  commands_valid = rw e₁ (put-Entries _ c.command_id c s.commands h.commands_valid v);
  profiles_valid = rw e₂ h.profiles_valid;
  indexed = rw e₁ i;
}

-- A change of the status leaves a command valid.
restatus-valid :
    (c : ExecutionLaneCommand) (st : ExecutionCommandStatus) (b t : Option String)
    → validate_command_authority c ≡ ok tt
    → validate_command_authority (record c { status = st; claimed_by = b; claimed_at = t }) ≡ ok tt
unfolding validate_command_authority has_live_authority command_missing
restatus-valid c st b t h = ground arith

-- The rest of a block may use what the step before it returned.
Keeps-bind {ℓ κ} :
    {A : Type ℓ} {B : Type κ} (m : Result Error A) (f : A → Result Error (B × ExecutionLaneService))
    → ((a : A) → m ≡ ok a → Keeps (f a))
    → Keeps (m >>= f)
Keeps-bind (ok a) f k = k a refl
Keeps-bind (err e) f k = tt

validate_profile-ok :
    (read : Payload → Result Error ExecutionLaneProfile) (d : Payload) (p : ExecutionLaneProfile)
    → validate_profile read d ≡ ok p
    → validate_profile_authority p ≡ ok tt
unfolding validate_profile
validate_profile-ok read d p h = ground arith

pub validate_command-ok :
    (digest : Payload → String) (read : Payload → Result Error ExecutionLaneCommand) (d : Payload)
    (c : ExecutionLaneCommand)
    → validate_command digest read d ≡ ok c
    → validate_command_authority c ≡ ok tt
unfolding validate_command
validate_command-ok digest read d c h = ground arith

pub register_profile-Keeps :
    (r : Readers) (d : Payload) (s : ExecutionLaneService)
    → IsConsistent s
    → Keeps (register_profile r d s)
unfolding register_profile
register_profile-Keeps r d s h = Keeps-bind (validate_profile r.read_profile d) _ λ p e.
    Keeps-bind (assert_profile_credential_slot s.credential_slots p) _ λ _ _. record {
      ids_once = h.ids_once;
      by_id = h.by_id;
      commands_valid = h.commands_valid;
      profiles_valid =
          put-Entries _ p.runtime_profile_id p s.profiles h.profiles_valid
            (refl, validate_profile-ok r.read_profile d p e);
      indexed = h.indexed;
    }

store_command-Keeps :
    (c : ExecutionLaneCommand) (s : ExecutionLaneService)
    → IsConsistent s
    → validate_command_authority c ≡ ok tt
    → Keeps (store_command c s)
unfolding store_command
store_command-Keeps c s h v =
    elim (Option-cases (get (c.runtime_profile_id, c.idempotency_key) s.idempotency_index)) [
      | inl fresh ↦
          rw (fresh, store_command)
            (put_command-IsConsistent c s _ h v refl refl (
              put-Entries _ (c.runtime_profile_id, c.idempotency_key) c.command_id
                s.idempotency_index (still_indexed c s h)
                (known-put_self c.command_id c s.commands)))
      | inr (id, found) ↦
          rw (found, store_command) (Keeps-bind (or_raise (get id s.commands) _) _ λ _ _. h)
    ]

pub enqueue_command-Keeps :
    (r : Readers) (d : Payload) (s : ExecutionLaneService)
    → IsConsistent s
    → Keeps (enqueue_command r d s)
unfolding enqueue_command
enqueue_command-Keeps r d s h = Keeps-bind (validate_command r.digest r.read_command d) _ λ c e.
    Keeps-bind (or_raise (get c.runtime_profile_id s.profiles) _) _ λ p _.
      Keeps-bind (assert_profile_matches_command p c) _
        λ _ _. store_command-Keeps c s h (validate_command-ok r.digest r.read_command d c e)

pub claim_command-Keeps :
    (now id worker : String) (s : ExecutionLaneService)
    → IsConsistent s
    → Keeps (claim_command now id worker s)
unfolding claim_command
claim_command-Keeps now id worker s h = Keeps-bind (or_raise (get id s.commands) _) _ λ c e.
    Keeps-bind (raise_if (not (c.status == queued)) _) _ λ _ _.
      put_command-IsConsistent
        (record c { status = claimed; claimed_by = some worker; claimed_at = some now }) s _ h
        (restatus-valid c claimed (some worker) (some now)
          (get-Entries _ id c s.commands h.commands_valid (or_raise-eq-ok _ _ c e)))
        refl refl (still_indexed _ s h)

pub claim_next-Keeps :
    (now profile worker : String) (s : ExecutionLaneService)
    → IsConsistent s
    → Keeps (claim_next now profile worker s)
unfolding claim_next
claim_next-Keeps now profile worker s h =
    Keeps-bind (or_raise (find (is_queued_for profile) (values s.commands)) _) _
      λ c _. claim_command-Keeps now c.command_id worker s h

pub record_report-Keeps :
    (r : Readers) (id : String) (d : Payload) (s : ExecutionLaneService)
    → IsConsistent s
    → Keeps (record_report r id d s)
unfolding record_report
record_report-Keeps r id d s h = Keeps-bind (or_raise (get id s.commands) _) _ λ c e.
    Keeps-bind (validate_report r.digest r.read_report (report_payload c d)) _ λ report _.
      put_command-IsConsistent (record c { status = reported }) s _ h
        (restatus-valid c reported c.claimed_by c.claimed_at
          (get-Entries _ id c s.commands h.commands_valid (or_raise-eq-ok _ _ c e)))
        refl refl (still_indexed _ s h)

pub record_session-IsConsistent :
    (x : ExecutionLaneSession) (s : ExecutionLaneService)
    → IsConsistent s
    → IsConsistent (record_session x s)
unfolding record_session
record_session-IsConsistent x s h = record {
  ids_once = h.ids_once;
  by_id = h.by_id;
  commands_valid = h.commands_valid;
  profiles_valid = h.profiles_valid;
  indexed = h.indexed;
}
