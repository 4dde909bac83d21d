-- ===== src/Evidence/Examples.antt =====
-- The theorems on packages/evidence_ledger at concrete evidence.
use nautilus_builder.Prelude.{
  true, Option, none, some, String, List, [], ◌∷◌, ok, err, ◌≡◌, ◌↔◌, ◌⊎◌, refl, ◌==◌, string_eq,
  if◌then◌else◌, eq_iff,
}
use nautilus_builder.Prelude.Text.{characters, all_codes}
use nautilus_builder.Prelude.Dict.{get, values}
use nautilus_builder.Prelude.Sorted.{sorted_by}
use nautilus_builder.Auth.Policy.{BuilderEnvironment}
use nautilus_builder.Evidence.Models.{
  EvidenceRef, compiled_strategy_ir, manual_review, unverified, verified, failed, expired,
  scope_mismatch, hash_mismatch, hash_empty, invalid_ref,
}
use nautilus_builder.Evidence.Verifier.{
  hash_required, is_hex, marked, check_source, check_scope, check_expiry, check_hash,
  compare_checksum, check_content, concluded, first_failure, verify_evidence_ref,
}
use nautilus_builder.Evidence.Verified.{IsVerifiable, verify_evidence_ref_iff}
use nautilus_builder.Evidence.Repository.{
  Ledger, save, get_ref, list_by_project, list_by_strategy_lineage,
  create_evidence_repository_for_env, create_evidence, verify_evidence, list_evidence_for_strategy,
  in_memory_forbidden, invalid_payload,
}
use nautilus_builder.Evidence.Calls.{verify_evidence_lem, create_evidence_takes_over}

abbrev hash : String
hash = "0123456789abcdef0123456789abcdef0123456789abcdef0123456789abcdef"

abbrev compiled : EvidenceRef
compiled = record {
  evidence_id = "e1";
  project_id = "p";
  strategy_lineage_id = some "lineage_001";
  strategy_version_id = none;
  artifact_type = compiled_strategy_ir;
  source_system = "compiler";
  uri = "artifact://builder/p/u/ir/1";
  sha256 = hash;
  schema_version = "evidence_v1";
  created_at = none;
  producer = "builder";
  status = "active";
  verification_status = unverified;
  verification_error = none;
  expires_at = some 200;
  metadata = [];
}

abbrev review : EvidenceRef
review = record compiled {
  evidence_id = "e0";
  artifact_type = manual_review;
  sha256 = "";
  expires_at = none;
}

abbrev store : Option (String → Option String)
store = some (λ uri. if uri == "artifact://builder/p/u/ir/1" then some hash else none)

abbrev ledger : Ledger
ledger = ("e1", compiled) ∷ ("e0", review) ∷ []

abbrev foreign : EvidenceRef
foreign = record compiled { project_id = "q"; verification_status = verified; sha256 = "" }

ids : List EvidenceRef → List String
ids [] = []
ids (r ∷ rs) = r.evidence_id ∷ ids rs

runs :
    ((verify_evidence_ref store (some "p") 100 compiled).verification_status ≡ verified)
    × ((verify_evidence_ref store (some "q") 100 compiled).verification_status ≡ scope_mismatch)
    × ((verify_evidence_ref store none 200 compiled).verification_status ≡ expired)
    × ((verify_evidence_ref none none 100 (record compiled { sha256 = "" })).verification_error
        ≡ some hash_empty)
    × ((verify_evidence_ref none none 100 (record compiled { sha256 = "12" })).verification_status
        ≡ hash_mismatch)
    × ((verify_evidence_ref store none 100
          (record compiled { uri = "elsewhere" })).verification_status
        ≡ failed)
    × ((verify_evidence_ref none none 100
          (record compiled { source_system = "x" })).verification_status
        ≡ failed)
    × ((verify_evidence_ref store none 100 review).verification_status ≡ verified)
    × (ids (list_evidence_for_strategy "" "p" ledger) ≡ "e0" ∷ "e1" ∷ [])
    × (ids (list_evidence_for_strategy "lineage_001" "q" ledger) ≡ [])
    × (create_evidence (record review { uri = "" }) ledger ≡ err invalid_payload)
    × (create_evidence_repository_for_env BuilderEnvironment.production true
        ≡ err in_memory_forbidden)
    × (create_evidence_repository_for_env BuilderEnvironment.local true ≡ ok tt)
unfolding verify_evidence_ref concluded first_failure check_source check_scope check_expiry
    check_hash hash_required check_content compare_checksum marked is_hex characters all_codes
    list_evidence_for_strategy list_by_project list_by_strategy_lineage sorted_by values ids
    create_evidence invalid_ref create_evidence_repository_for_env
runs = (refl, refl, refl, refl, refl, refl, refl, refl, refl, refl, refl, refl, refl)

abbrev verdict : EvidenceRef → EvidenceRef
verdict = verify_evidence_ref store (some "p") 100

verify_evidence_ref_iff_example :
    (((verdict compiled).verification_status ≡ verified)
      ↔ IsVerifiable store (some "p") 100 compiled)
    × (((verdict compiled).verification_error ≡ none) ↔ IsVerifiable store (some "p") 100 compiled)
    × (verdict compiled
        ≡ marked
            (verdict compiled).verification_status
            (verdict compiled).verification_error
            compiled)
verify_evidence_ref_iff_example = verify_evidence_ref_iff store (some "p") 100 compiled

abbrev after : Ledger
after = (verify_evidence store 100 "e1" "p" ledger).1

verify_evidence_lem_example :
    ((get_ref "e1" "p" ledger ≡ none)
      × (verify_evidence store 100 "e1" "p" ledger ≡ (none, ledger)))
    ⊎ ((r : EvidenceRef) × (get_ref "e1" "p" ledger ≡ some r)
        × ((verify_evidence store 100 "e1" "p" ledger).0 ≡ some (verdict r))
        × (((verdict r).verification_status ≡ verified) ↔ IsVerifiable store (some "p") 100 r)
        × (get_ref "e1" "p" after ≡ some (verdict r))
        × (get "e0" after ≡ get "e0" ledger))
verify_evidence_lem_example = verify_evidence_lem store 100 "e1" "p" ledger "e0"

create_evidence_takes_over_example :
    (create_evidence foreign ledger ≡ ok (foreign, save foreign ledger))
    × (get_ref "e1" "p" (save foreign ledger) ≡ none)
    × (get_ref "e1" "q" (save foreign ledger) ≡ some foreign)
unfolding get_ref get invalid_ref
create_evidence_takes_over_example =
    create_evidence_takes_over compiled foreign ledger refl (λ h. cc ((eq_iff "q" "p").1 h)) refl
