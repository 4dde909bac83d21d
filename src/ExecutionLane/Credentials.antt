-- ===== src/ExecutionLane/Credentials.antt =====
-- Credential slots of packages/execution_lane/credentials.py, and the methods of service.py that make
-- and resolve them. The one file that the store writes is `Option String`, its text, or `none` where
-- it does not exist yet. The digests of hashlib and the JSON text that they read are parameters.
use Prim.Native.Char.{Char, char, code}
use Prim.Native.String.{char_at}
use nautilus_builder.Prelude.{
  ℕ, ◌-◌, Bool, true, false, not, ◌&&◌, ◌||◌, Option, some, String, List, [], ◌∷◌, Result, ok,
  ◌>>=◌, ◌>>◌, raise_if, or_raise, ◌==◌, string_eq, nat_eq, leb, if◌then◌else◌, any,
}
use nautilus_builder.Prelude.Text.{append, strip, prefix, starts_with}
use nautilus_builder.Prelude.Sorted.{sorted_by}
use nautilus_builder.Prelude.Dict.{Dict, get, put}
use nautilus_builder.ExecutionLane.Profile.{ExecutionLaneMode}
use nautilus_builder.ExecutionLane.Slots.{ExecutionCredentialSlot}
use nautilus_builder.ExecutionLane.Service.{ExecutionLaneService}
use nautilus_builder.ExecutionLane.EnvFile.{
  upper, is_env_key, read_env_file, key_of, write_env_values,
}

pub data CredentialError : Type 0 where
  empty_field bad_target unsafe_key not_prefixed value_required unsafe_value : CredentialError
  values_missing unknown_slot : CredentialError

-- `ExecutionCredentialSlotRequest` as it is sent: the values in the order of the payload.
pub record ExecutionCredentialSlotRequest : Type 0 where
  pub tenant_id : String
  pub project_id : String
  pub runtime_profile_id : String
  pub adapter_id : String
  pub venue : String
  pub lane_mode : ExecutionLaneMode
  pub requested_by : String
  pub credential_values : Dict String String
  pub storage_target : String

abbrev pub default_env_file : String
default_env_file = ".env.execution.local"

abbrev pub allowed_suffixes : List String
allowed_suffixes =
    "API_KEY" ∷ "API_SECRET" ∷ "API_PASSPHRASE" ∷ "PRIVATE_KEY" ∷ "WALLET_ADDRESS" ∷ "TESTNET"
    ∷ "BASE_URL" ∷ "ACCOUNT_ID" ∷ "SUBACCOUNT_ID" ∷ []

abbrev pub forbidden_keys : List String
forbidden_keys =
    "API_KEY" ∷ "API_SECRET" ∷ "SECRET" ∷ "SECRET_KEY" ∷ "PRIVATE_KEY" ∷ "PASSWORD" ∷ "TOKEN"
    ∷ "AUTHORIZATION" ∷ "BUILDER_API_TOKEN" ∷ "BUILDER_DEV_AUTH_TOKEN" ∷ "OPENAI_API_KEY" ∷ []

-- `s.endswith(t)`
unfoldable pub ends_with : String → String → Bool
ends_with String.[] t = t == ""
ends_with (String.◌∷◌ c s) t = String.◌∷◌ c s == t || ends_with s t

-- `_validate_env_key`
unfoldable pub validate_env_key : String → String → Result CredentialError (Unit {0})
unfolding ends_with
validate_env_key venue_prefix key = do
  raise_if (not (is_env_key key) || starts_with key "NEXT_PUBLIC_") unsafe_key
  raise_if (any (λ k. key == k) forbidden_keys) not_prefixed
  raise_if (not (starts_with key venue_prefix)) not_prefixed
  raise_if (not (any (ends_with key) allowed_suffixes)) unsafe_key

-- `"\n" in value or "\r" in value or "\x00" in value`
unfoldable pub has_unsafe_character : String → Bool
has_unsafe_character String.[] = false
has_unsafe_character (String.◌∷◌ c s) =
    code c == 10 || code c == 13 || code c == 0 || has_unsafe_character s

-- `_validate_env_value`
unfoldable pub validate_env_value : String → Result CredentialError (Unit {0})
unfolding has_unsafe_character
validate_env_value value = do
  raise_if (strip value == "") value_required
  raise_if (has_unsafe_character value) unsafe_value

-- The loop of `validate_credential_values`.
unfoldable pub normalize_values :
    String → Dict String String → Dict String String → Result CredentialError (Dict String String)
unfolding validate_env_key validate_env_value
normalize_values venue_prefix [] normalized = ok normalized
normalize_values venue_prefix ((raw_key, value) ∷ values) normalized = do
  validate_env_key venue_prefix (upper (strip raw_key))
  validate_env_value value
  normalize_values venue_prefix values (put (upper (strip raw_key)) value normalized)

-- `validate_storage_target`: only the default passes, and it is no path.
unfoldable pub validate_storage_target : String → Result CredentialError (Unit {0})
validate_storage_target value =
    raise_if (not (strip value == "") && not (strip value == default_env_file)) bad_target

-- A text of `Field(min_length=1)` is empty, or the values are.
unfoldable pub request_incomplete : ExecutionCredentialSlotRequest → Bool
request_incomplete r =
    r.tenant_id == ""
    || r.project_id == ""
    || r.runtime_profile_id == ""
    || r.adapter_id == ""
    || r.venue == ""
    || r.requested_by == ""
    || (elim r.credential_values [ [] ↦ true | _ ∷ _ ↦ false ])

-- The validation of a request: the fields, and then the values against the venue.
unfoldable pub validate_request :
    ExecutionCredentialSlotRequest → Result CredentialError ExecutionCredentialSlotRequest
unfolding request_incomplete validate_storage_target
validate_request r = do
  raise_if (request_incomplete r) empty_field
  validate_storage_target r.storage_target
  let venue = upper (strip r.venue)
  normalized ← normalize_values (append (upper (strip venue)) "_") r.credential_values []
  ok (record r {
    adapter_id = upper (strip r.adapter_id);
    venue = venue;
    credential_values = sorted_by key_of normalized;
    storage_target = default_env_file;
  })

pub record Hashing : Type 0 where
  pub sha256 : String → String
  pub dumps : Dict String String → String

-- `s.lower()` of one character, where it is ASCII.
abbrev lower_of : Char → String
lower_of c =
    if leb 65 (code c) && leb (code c) 90
    then String.◌∷◌ (char_at "abcdefghijklmnopqrstuvwxyz" (code c - 65)) String.[]
    else if code c == 0x212a
    then "k"
    else if code c == 0x130
    then append "i" (String.◌∷◌ (char 0x307 tt) String.[])
    else String.◌∷◌ c String.[]

unfoldable pub lowered : String → String
lowered String.[] = String.[]
lowered (String.◌∷◌ c s) = append (lower_of c) (lowered s)

-- `[A-Za-z0-9_.-]`
abbrev is_ref_code : ℕ → Bool
is_ref_code c =
    (leb 65 c && leb c 90)
    || (leb 97 c && leb c 122)
    || (leb 48 c && leb c 57)
    || c == 95
    || c == 46
    || c == 45

-- `re.sub(r"[^A-Za-z0-9_.-]+", "-", s)`; the flag tells that the run has its dash already.
unfoldable pub dashed : Bool → String → String
dashed inside String.[] = String.[]
dashed inside (String.◌∷◌ c s) =
    let rest = dashed (not (is_ref_code (code c))) s in
    if is_ref_code (code c)
    then String.◌∷◌ c rest
    else if inside
    then rest
    else String.◌∷◌ (char_at "-" 0) rest

abbrev is_mark : ℕ → Bool
is_mark c = c == 45 || c == 95

-- `s.strip("-_")`
unfoldable pub drop_marks : String → String
drop_marks String.[] = String.[]
drop_marks (String.◌∷◌ c s) =
    let rest = drop_marks s in if is_mark (code c) then rest else String.◌∷◌ c s

unfoldable pub drop_last_marks : String → String
drop_last_marks String.[] = String.[]
drop_last_marks (String.◌∷◌ c s) =
    let rest = drop_last_marks s in
    if is_mark (code c) && rest == "" then String.[] else String.◌∷◌ c rest

-- `_safe_ref_part`
unfoldable pub safe_ref_part : String → String
unfolding dashed drop_marks drop_last_marks
safe_ref_part value =
    let part = drop_last_marks (drop_marks (dashed false (strip value))) in
    if part == "" then "unknown" else part

unfoldable pub keys_of : Dict String String → List String
keys_of [] = []
keys_of ((key, value) ∷ d) = key ∷ keys_of d

module _ (h : Hashing) where
  hashed : Dict String String → Dict String String
  hashed [] = []
  hashed ((key, value) ∷ d) = (key, h.sha256 value) ∷ hashed d

  -- `_fingerprint`
  unfoldable pub fingerprint_of : Dict String String → String
  unfolding hashed
  fingerprint_of values = h.sha256 (h.dumps (hashed values))

  -- `_slot_ref`
  unfoldable pub slot_ref : ExecutionCredentialSlotRequest → String → String
  unfolding safe_ref_part
  slot_ref r fingerprint = append "credslot://local-env/" (
      append (safe_ref_part r.project_id) (
        append "/" (
          append (safe_ref_part r.runtime_profile_id) (
            append "/"
              (append (safe_ref_part (lowered r.venue)) (append "/" (prefix 12 fingerprint)))))))

  -- `create_slot`: the slot, and the text of the file.
  unfoldable pub create_slot :
      ExecutionCredentialSlotRequest → Option String → ExecutionCredentialSlot × String
  unfolding fingerprint_of slot_ref keys_of
  create_slot r file = (
    record {
      credential_slot_ref = slot_ref r (fingerprint_of r.credential_values);
      tenant_id = r.tenant_id;
      project_id = r.project_id;
      runtime_profile_id = r.runtime_profile_id;
      adapter_id = r.adapter_id;
      venue = r.venue;
      lane_mode = r.lane_mode;
      requested_by = r.requested_by;
      env_file_path = default_env_file;
      redacted_keys = keys_of r.credential_values;
      fingerprint = fingerprint_of r.credential_values;
    },
    write_env_values r.credential_values file,
  )

-- `{key: values[key] for key in keys if key in values}`, which raises where a key is missing.
unfoldable pub select_values :
    List String → Dict String String → Result CredentialError (Dict String String)
select_values [] values = ok []
select_values (key ∷ keys) values = do
  value ← or_raise (get key values) values_missing
  rest ← select_values keys values
  ok ((key, value) ∷ rest)

-- `resolve_slot_values`
unfoldable pub resolve_slot_values :
    ExecutionCredentialSlot → Option String → Result CredentialError (Dict String String)
unfolding select_values
resolve_slot_values slot file = select_values slot.redacted_keys (read_env_file file)

-- The service with the file of its store.
abbrev pub SlotState : Type 0
SlotState = ExecutionLaneService × Option String

module _ (h : Hashing) where
  -- `ExecutionLaneService.create_credential_slot`
  unfoldable pub create_credential_slot :
      ExecutionCredentialSlotRequest
      → SlotState
      → Result CredentialError (ExecutionCredentialSlot × SlotState)
  unfolding validate_request create_slot
  create_credential_slot payload (s, file) = do
    r ← validate_request payload
    let slot = (create_slot h r file).0
    ok (
      slot,
      (
        record s { credential_slots = put slot.credential_slot_ref slot s.credential_slots },
        some (create_slot h r file).1,
      ),
    )

-- `ExecutionLaneService.resolve_credential_slot_values`
unfoldable pub resolve_credential_slot_values :
    String → SlotState → Result CredentialError (Dict String String)
unfolding resolve_slot_values
resolve_credential_slot_values ref (s, file) = do
  slot ← or_raise (get ref s.credential_slots) unknown_slot
  resolve_slot_values slot file
