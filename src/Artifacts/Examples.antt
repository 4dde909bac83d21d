-- ===== src/Artifacts/Examples.antt =====
-- The theorems on packages/artifact_store at concrete artifacts.
use nautilus_builder.Prelude.{
  some, String, [], ◌∷◌, Result, ok, err, ◌≡◌, refl, ap, eq_iff, string_eq,
}
use nautilus_builder.Prelude.Text.{split_at, all_codes, prefix}
use nautilus_builder.Prelude.Dict.{get, put}
use nautilus_builder.Json.{Payload, text}
use nautilus_builder.Auth.Models.{UserProjectContext, ScopedArtifactRef}
use nautilus_builder.Auth.Policy.{assert_same_project}
use nautilus_builder.Artifacts.Store.{
  ArtifactRecord, ArtifactError, unsafe_identifier, invalid_ref, outside_scope, not_found, Files,
  is_alphanumeric, is_safe_code, is_safe, safe_identifier, artifact_ref_of, scope_of_parts,
  scoped_ref, path_for, check_scope, NewArtifact, record_of, put_json, get_json, verify_ref,
}
use nautilus_builder.Artifacts.Codec.{codec, codec-IsLawful}
use nautilus_builder.Artifacts.RoundTrip.{get_json-put_json}
use nautilus_builder.Artifacts.Others.{get_json-put_json_other}

abbrev ann : UserProjectContext
ann = record { user_id = "ann"; project_id = "p"; role = "builder" }

abbrev bob : UserProjectContext
bob = record { user_id = "bob"; project_id = "p"; role = "builder" }

abbrev report : NewArtifact
report = record {
  artifact_type = "risk_review";
  artifact_id = "r1";
  payload = ("kind", text "report") ∷ [];
  metadata = some (("v", "2") ∷ []);
  now = "10:00";
}

abbrev saved : ArtifactRecord
saved = record_of codec "root" ann report "root/p/ann/risk_review/r1.json"

abbrev files_after : Files
files_after =
    put "root/p/ann/risk_review/r1.json"
      (codec.write (record { entry = saved; payload = report.payload })) []

returned : put_json codec "root" ann report [] ≡ ok (saved, files_after)
unfolding put_json path_for safe_identifier is_safe is_alphanumeric is_safe_code all_codes prefix
    record_of
returned = refl

runs :
    (saved.artifact_ref ≡ "artifact://builder/p/ann/risk_review/r1")
    × (get_json codec "root" bob saved.artifact_ref files_after ≡ err outside_scope)
    × (get_json codec "root" ann "artifact://builder/p/ann/risk_review/r2" files_after
        ≡ err not_found)
    × (get_json codec "root" ann "artifact://other/p/ann/risk_review/r1" files_after
        ≡ err invalid_ref)
    × (get_json codec "root" ann "artifact://builder/p/ann/../r1" files_after
        ≡ err (unsafe_identifier ".."))
    × (put_json codec "root" ann (record report { artifact_id = "a/b" }) []
        ≡ err (unsafe_identifier "a/b"))
unfolding put_json get_json scoped_ref scope_of_parts check_scope assert_same_project path_for
    safe_identifier is_safe is_alphanumeric is_safe_code all_codes prefix record_of artifact_ref_of
    split_at get put
runs = (refl, refl, refl, refl, refl, refl)

get_json-put_json_example :
    (p : Payload) × (get_json codec "root" ann saved.artifact_ref files_after
      ≡ ok (record { entry = saved; payload = p }))
    × (codec.canonical_json p ≡ codec.canonical_json report.payload)
    × (verify_ref codec "root" ann saved.artifact_ref (some saved.checksum_sha256) files_after
        ≡ ok saved)
get_json-put_json_example =
    get_json-put_json codec codec-IsLawful "root" ann report [] files_after saved returned

abbrev user_of : Result ArtifactError ScopedArtifactRef → String
user_of (ok x) = x.user_id
user_of (err e) = ""

get_json-put_json_other_example :
    get_json codec "root" bob "artifact://builder/p/bob/risk_review/r1" files_after
    ≡ get_json codec "root" bob "artifact://builder/p/bob/risk_review/r1" []
unfolding scoped_ref scope_of_parts safe_identifier is_safe is_alphanumeric is_safe_code all_codes
    prefix split_at
get_json-put_json_other_example =
    get_json-put_json_other codec "root" ann report [] files_after saved returned bob
      "artifact://builder/p/bob/risk_review/r1" (λ h. cc ((eq_iff "bob" "ann").1 (ap user_of h)))
