-- ===== src/ExecutionLane/SlotValues.antt =====
-- A credential slot of packages/execution_lane/credentials.py gives the values that it was made with.
use mathlib.Core.Path.{subst}
use nautilus_builder.Prelude.{
  true, false, not, ◌||◌, Option, none, some, String, [], ◌∷◌, ok, string_eq, ◌≡◌, refl, sym, ap,
  ◌∙◌, arith, eq_iff, >>=-eq-ok, passed,
}
use nautilus_builder.Prelude.Text.{append, strip, starts_with}
use nautilus_builder.Prelude.Sorted.{sorted_by}
use nautilus_builder.Prelude.Dict.{Dict, get, put}
use nautilus_builder.Prelude.Dict.Laws.{
  Entries, Entries-mono, put-Entries, get-put_self, known, known-get, known-put, known-put_self,
}
use nautilus_builder.Prelude.Dict.Unique.{Unique, put-Unique}
use nautilus_builder.ExecutionLane.Slots.{ExecutionCredentialSlot}
use nautilus_builder.ExecutionLane.Service.{ExecutionLaneService}
use nautilus_builder.ExecutionLane.EnvFile.{
  upper, is_env_key, read_env_file, key_of, write_env_values,
}
use nautilus_builder.ExecutionLane.EnvLines.{IsTidy}
use nautilus_builder.ExecutionLane.EnvRound.{
  IsStorable, AllStorable, or_get, get-sorted_by, sorted_by-AllStorable, IsWritten,
  write_env_values_lem,
}
use nautilus_builder.ExecutionLane.Credentials.{
  ExecutionCredentialSlotRequest, empty_field, unsafe_key, validate_env_key, validate_env_value,
  normalize_values, validate_storage_target, request_incomplete, validate_request, Hashing, keys_of,
  create_slot, select_values, resolve_slot_values, SlotState, create_credential_slot,
  resolve_credential_slot_values,
}

-- The values have no space at either end and no line break.
abbrev pub AllTidy : Dict String String → Type 0
AllTidy = Entries (λ k v. IsTidy v)

validated_key :
    (venue_prefix key : String) → validate_env_key venue_prefix key ≡ ok tt → is_env_key key ≡ true
unfolding validate_env_key
validated_key venue_prefix key h =
    let (safe, _) =
      passed (not (is_env_key key) || starts_with key "NEXT_PUBLIC_") unsafe_key _ h in
    ground arith

-- What the loop over the values returns can be stored, and holds each key once.
normalize_values-AllStorable :
    (venue_prefix : String) (values acc n : Dict String String)
    → normalize_values venue_prefix values acc ≡ ok n
    → AllTidy values
    → AllStorable acc
    → Unique acc
    → AllStorable n × Unique n
unfolding normalize_values
normalize_values-AllStorable venue_prefix [] acc n h tidy s u =
    let same : acc ≡ n = cc in
    (subst AllStorable same s, subst (λ (d : Dict String String). Unique d) same u)
normalize_values-AllStorable venue_prefix ((raw, v) ∷ values) acc n h tidy s u =
    let key = upper (strip raw) in
    let (unit, checked, r1) = >>=-eq-ok (validate_env_key venue_prefix key) _ h in
    let (_, _, r2) = >>=-eq-ok (validate_env_value v) _ r1 in
    let storable : IsStorable key v = (validated_key venue_prefix key checked, tidy.0) in
    normalize_values-AllStorable venue_prefix values (put key v acc) n r2 tidy.1
      (put-Entries IsStorable key v acc s storable) (put-Unique key v acc u)

found_behind :
    (j w k v : String) (d : Dict String String)
    → get j d ≡ none
    → get k d ≡ some v
    → get k ((j, w) ∷ d) ≡ some v
unfolding get
found_behind j w k v d new h = ground (arith, eq_iff j k)

-- Each entry is what is found under its key.
Unique-found : (d : Dict String String) → Unique d → Entries (λ k v. get k d ≡ some v) d
unfolding get
Unique-found [] u = tt
Unique-found ((j, w) ∷ d) u = (
  ground (arith, eq_iff j j),
  Entries-mono (λ k v. get k d ≡ some v) (λ k v. get k ((j, w) ∷ d) ≡ some v) d
      (λ k v h. found_behind j w k v d u.0 h) (Unique-found d u.1),
)

select_values_found :
    (d values : Dict String String)
    → Entries (λ k v. get k values ≡ some v) d
    → select_values (keys_of d) values ≡ ok d
unfolding select_values keys_of
select_values_found [] values h = refl
select_values_found ((k, v) ∷ d) values h =
    rw (h.0, select_values) (rw (select_values_found d values h.1, select_values) refl)

-- A key that was put in stays, whatever is put in after it.
normalize_values-known :
    (venue_prefix j : String) (values acc n : Dict String String)
    → normalize_values venue_prefix values acc ≡ ok n
    → known j acc ≡ true
    → known j n ≡ true
unfolding normalize_values
normalize_values-known venue_prefix j [] acc n h k =
    subst (λ (d : Dict String String). known j d ≡ true) (cc h) k
normalize_values-known venue_prefix j ((raw, v) ∷ values) acc n h k =
    let (_, _, r1) = >>=-eq-ok (validate_env_key venue_prefix (upper (strip raw))) _ h in
    let (_, _, r2) = >>=-eq-ok (validate_env_value v) _ r1 in
    normalize_values-known venue_prefix j values (put (upper (strip raw)) v acc) n r2
      (known-put (upper (strip raw)) j v acc k)

first_known :
    (venue_prefix raw v : String) (values n : Dict String String)
    → normalize_values venue_prefix ((raw, v) ∷ values) [] ≡ ok n
    → known (upper (strip raw)) n ≡ true
unfolding normalize_values
first_known venue_prefix raw v values n h =
    let key = upper (strip raw) in
    let (_, _, r1) = >>=-eq-ok (validate_env_key venue_prefix key) _ h in
    let (_, _, r2) = >>=-eq-ok (validate_env_value v) _ r1 in
    normalize_values-known venue_prefix key values (put key v []) n r2 (known-put_self key v [])

-- A request holds one value at least.
some_entry :
    (venue_prefix : String) (values n : Dict String String)
    → (elim values [ [] ↦ true | _ ∷ _ ↦ false ]) ≡ false
    → normalize_values venue_prefix values [] ≡ ok n
    → (j : String) × (w : String) × (get j n ≡ some w)
some_entry venue_prefix [] n full h = cc
some_entry venue_prefix ((raw, v) ∷ values) n full h =
    let key = upper (strip raw) in
    let (w, found) = known-get key n (first_known venue_prefix raw v values n h) in (key, w, found)

has_values :
    (r : ExecutionCredentialSlotRequest)
    → request_incomplete r ≡ false
    → (elim r.credential_values [ [] ↦ true | _ ∷ _ ↦ false ]) ≡ false
unfolding request_incomplete
has_values r h = ground arith

-- What the validation of a request returns.
validated_request :
    (payload r : ExecutionCredentialSlotRequest)
    → validate_request payload ≡ ok r
    → AllTidy payload.credential_values
    → AllStorable r.credential_values
      × Unique r.credential_values
      × ((j : String) × (w : String) × (get j r.credential_values ≡ some w))
unfolding validate_request
validated_request payload r h tidy =
    let (complete, r1) = passed (request_incomplete payload) empty_field _ h in
    let (_, _, r2) = >>=-eq-ok (validate_storage_target payload.storage_target) _ r1 in
    let venue_prefix = append (upper (strip (upper (strip payload.venue)))) "_" in
    let (n, made, r3) =
      >>=-eq-ok (normalize_values venue_prefix payload.credential_values []) _ r2 in
    let (s, u) =
      normalize_values-AllStorable venue_prefix payload.credential_values [] n made tidy tt tt in
    let same : r.credential_values ≡ sorted_by key_of n = cc in
    let (j, w, found) =
      some_entry venue_prefix payload.credential_values n (has_values payload complete) made in
    let (sorted, once) = get-sorted_by j n u in
    (
      subst AllStorable (sym same) (sorted_by-AllStorable n s),
      subst (λ (d : Dict String String). Unique d) (sym same) once,
      (j, w, ap (get j) same ∙ sorted ∙ found),
    )

-- A file written for the values of a slot gives them back.
resolve-IsWritten :
    (h : Hashing) (r : ExecutionCredentialSlotRequest) (file : Option String) (j w : String)
    → IsWritten file
    → AllStorable r.credential_values
    → Unique r.credential_values
    → get j r.credential_values ≡ some w
    → (resolve_slot_values (create_slot h r file).0 (some (create_slot h r file).1)
        ≡ ok r.credential_values)
      × IsWritten (some (create_slot h r file).1)
unfolding resolve_slot_values create_slot
resolve-IsWritten h r file j w was s u found =
    let values = r.credential_values in
    let (next, reads) = write_env_values_lem was values j w found s u in
    let after = read_env_file (some (write_env_values values file)) in
    (
      select_values_found values after (
          Entries-mono (λ k v. get k values ≡ some v) (λ k v. get k after ≡ some v) values
            (λ k v there. reads k ∙ ap (λ o. or_get o (get k (read_env_file file))) there)
            (Unique-found values u)),
      next,
    )

resolve_there :
    (h : Hashing) (r : ExecutionCredentialSlotRequest) (s : ExecutionLaneService)
    (file : Option String)
    → resolve_slot_values (create_slot h r file).0 (some (create_slot h r file).1)
      ≡ ok r.credential_values
    → (let made = (create_slot h r file).0 in
        resolve_credential_slot_values made.credential_slot_ref (
          record s { credential_slots = put made.credential_slot_ref made s.credential_slots },
          some (create_slot h r file).1,
        )
        ≡ ok r.credential_values)
unfolding resolve_credential_slot_values
resolve_there h r s file resolved =
    let made = (create_slot h r file).0 in
    rw
      (
        get-put_self made.credential_slot_ref made s.credential_slots,
        resolve_credential_slot_values,
      )
      resolved

module _ (h : Hashing) (payload : ExecutionCredentialSlotRequest) (s : ExecutionLaneService)
    (file : Option String) (slot : ExecutionCredentialSlot) (after : SlotState) where
  -- A credential slot that the service has made is resolved to exactly the validated values of its
  -- request, each under its normalised key, provided that no value begins or ends with a space or holds
  -- a line break, and that the file is one that the store has left, which it then is again.
  pub resolve-create :
      IsWritten file
      → AllTidy payload.credential_values
      → create_credential_slot h payload (s, file) ≡ ok (slot, after)
      → (r : ExecutionCredentialSlotRequest) × (validate_request payload ≡ ok r)
        × (resolve_credential_slot_values slot.credential_slot_ref after ≡ ok r.credential_values)
        × IsWritten after.1
  unfolding create_credential_slot resolve_credential_slot_values
  resolve-create was tidy returned =
      let (r, valid, rest) = >>=-eq-ok (validate_request payload) _ returned in
      let (storable, once, (j, w, found)) = validated_request payload r valid tidy in
      let (resolved, next) = resolve-IsWritten h r file j w was storable once found in
      let made = (create_slot h r file).0 in
      let there : SlotState = (
        record s { credential_slots = put made.credential_slot_ref made s.credential_slots },
        some (create_slot h r file).1,
      ) in
      let same : made ≡ slot = cc in
      let same_state : there ≡ after = cc in
      let same_back = sym same in
      let state_back = sym same_state in
      (
        r,
        valid,
        (λ i. resolve_credential_slot_values (same_back i).credential_slot_ref (state_back i))
            ∙ resolve_there h r s file resolved,
        subst (λ (x : SlotState). IsWritten x.1) same_state next,
      )
