-- ===== src/ExecutionLane/CredentialExamples.antt =====
-- The theorem on packages/execution_lane/credentials.py at concrete requests.
use nautilus_builder.Prelude.{none, some, [], ◌∷◌, ok, err, ◌≡◌, refl, string_eq}
use nautilus_builder.Prelude.Text.{
  append, strip, lstrip, rstrip, is_space, all_codes, characters, prefix,
}
use nautilus_builder.Prelude.Sorted.{sorted_by}
use nautilus_builder.Prelude.Dict.{get, put}
use nautilus_builder.ExecutionLane.Profile.{paper}
use nautilus_builder.ExecutionLane.Slots.{ExecutionCredentialSlot}
use nautilus_builder.ExecutionLane.Service.{new}
use nautilus_builder.ExecutionLane.EnvFile.{
  upper, is_break, begins, splitlines, cut, parse_line, read_lines, is_key_code, begins_upper,
  is_env_key, read_env_file, join_lines, update, write_env_values,
}
use nautilus_builder.ExecutionLane.EnvRound.{IsWritten, no_file}
use nautilus_builder.ExecutionLane.Credentials.{
  ExecutionCredentialSlotRequest, unsafe_key, not_prefixed, value_required, unsafe_value, ends_with,
  validate_env_key, has_unsafe_character, validate_env_value, normalize_values,
  validate_storage_target, request_incomplete, validate_request, Hashing, keys_of, fingerprint_of,
  slot_ref, lowered, dashed, drop_marks, drop_last_marks, safe_ref_part, create_slot, select_values,
  SlotState, create_credential_slot, resolve_credential_slot_values,
}
use nautilus_builder.ExecutionLane.SlotValues.{resolve-create}

abbrev request : ExecutionCredentialSlotRequest
request = record {
  tenant_id = "t";
  project_id = "my project!";
  runtime_profile_id = "rp_1";
  adapter_id = "binance";
  venue = " binance ";
  lane_mode = paper;
  requested_by = "ops";
  credential_values = ("binance_api_secret", "s=1") ∷ ("BINANCE_API_KEY", "k") ∷ [];
  storage_target = "";
}

abbrev hashing : Hashing
hashing = record {
  sha256 = λ s. append "h" s;
  dumps = λ d. elim d [ [] ↦ "" | (k, v) ∷ _ ↦ append k v ];
}

abbrev made : ExecutionCredentialSlot
made =
    (create_slot hashing
      (record request {
        adapter_id = "BINANCE";
        venue = "BINANCE";
        credential_values = ("BINANCE_API_KEY", "k") ∷ ("BINANCE_API_SECRET", "s=1") ∷ [];
        storage_target = ".env.execution.local";
      })
      none).0

abbrev after : SlotState
after = (
  record (new none none) { credential_slots = (made.credential_slot_ref, made) ∷ [] },
  some "BINANCE_API_KEY=k\nBINANCE_API_SECRET=s=1\n",
)

returned : create_credential_slot hashing request (new none none, none) ≡ ok (made, after)
unfolding create_credential_slot create_slot validate_request request_incomplete
    validate_storage_target normalize_values validate_env_key validate_env_value
    has_unsafe_character ends_with upper strip lstrip rstrip is_space is_env_key is_key_code
    begins_upper all_codes characters put sorted_by write_env_values read_env_file update join_lines
    new keys_of fingerprint_of slot_ref safe_ref_part dashed drop_marks drop_last_marks lowered
    prefix
returned = refl

-- A value with a space at its end is stored, and resolved without it.
trims :
    select_values ("A_B" ∷ []) (
      read_env_file
        (some (write_env_values (("A_B", "v ") ∷ []) (some "# old\n  c_d = 1\nnone\n"))))
    ≡ ok (("A_B", "v") ∷ [])
unfolding select_values read_env_file write_env_values update join_lines sorted_by put get
    read_lines parse_line splitlines is_break begins cut upper strip lstrip rstrip is_space
trims = refl

runs :
    (made.credential_slot_ref ≡ "credslot://local-env/my-project/rp_1/binance/hBINANCE_API")
    × (validate_env_key "BINANCE_" "NEXT_PUBLIC_API_KEY" ≡ err unsafe_key)
    × (validate_env_key "BINANCE_" "OPENAI_API_KEY" ≡ err not_prefixed)
    × (validate_env_key "BINANCE_" "BYBIT_API_KEY" ≡ err not_prefixed)
    × (validate_env_key "BINANCE_" "BINANCE_TOKEN" ≡ err unsafe_key)
    × (validate_env_value "  " ≡ err value_required)
    × (validate_env_value "a\nb" ≡ err unsafe_value)
unfolding create_slot fingerprint_of slot_ref safe_ref_part dashed drop_marks drop_last_marks
    lowered prefix keys_of validate_env_key validate_env_value has_unsafe_character ends_with strip
    lstrip rstrip is_space is_env_key is_key_code begins_upper all_codes characters
runs = (refl, refl, refl, refl, refl, refl, refl)

resolve-create_example :
    (r : ExecutionCredentialSlotRequest) × (validate_request request ≡ ok r)
    × (resolve_credential_slot_values made.credential_slot_ref after ≡ ok r.credential_values)
    × IsWritten after.1
unfolding lstrip rstrip is_space all_codes is_break
resolve-create_example =
    resolve-create hashing request (new none none) none made after no_file
      ((refl, refl, refl), ((refl, refl, refl), tt)) returned
