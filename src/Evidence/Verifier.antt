-- ===== src/Evidence/Verifier.antt =====
-- `verify_evidence_ref` of packages/evidence_ledger/verifier.py. The artifact store gives the
-- checksum that it has on record for a URI, or raises a ValueError, which is `none`.
use nautilus_builder.Prelude.{
  ℕ, Bool, true, false, not, ◌&&◌, ◌||◌, Option, none, some, String, List, [], ◌∷◌, any, ◌==◌,
  string_eq, nat_eq, leb, if◌then◌else◌,
}
use nautilus_builder.Prelude.Text.{characters, all_codes}
use nautilus_builder.Evidence.Models.{
  ArtifactType, VerificationStatus, Problem, EvidenceRef, compiled_strategy_ir,
  feature_dependency_graph, risk_contract, replay_manifest, backtest_result,
  catalog_dataset_manifest, verified, failed, expired, scope_mismatch, hash_mismatch,
  unknown_source, project_differs, expired_at, hash_empty, hash_not_hex, hash_length,
  checksum_differs, unreadable,
}

-- `_HASH_REQUIRED_TYPES`
unfoldable pub hash_required : ArtifactType → Bool
hash_required compiled_strategy_ir = true
hash_required feature_dependency_graph = true
hash_required risk_contract = true
hash_required replay_manifest = true
hash_required backtest_result = true
hash_required catalog_dataset_manifest = true
hash_required _ = false

abbrev pub allowed_source_systems : List String
allowed_source_systems =
    "builder" ∷ "nautilus_builder" ∷ "nautilus_daedalus" ∷ "data_tester" ∷ "exec_tester"
    ∷ "reconciliation_service" ∷ "manual_review" ∷ "backtest_runner" ∷ "compiler" ∷ []

-- `[0-9a-f]`
unfoldable pub is_hex : ℕ → Bool
is_hex c = (leb 48 c && leb c 57) || (leb 97 c && leb c 102)

-- `ref.model_copy(update=...)`
unfoldable pub marked : VerificationStatus → Option Problem → EvidenceRef → EvidenceRef
marked status problem r = record r { verification_status = status; verification_error = problem }

-- A check that fails returns at once; the next one follows where it does not.
abbrev pub Check : Type 0
Check = Option (VerificationStatus × Problem)

infixr 20 ◌then_check◌
abbrev pub ◌then_check◌ : Check → Check → Check
none then_check next = next
some found then_check next = some found

unfoldable pub check_source : EvidenceRef → Check
check_source r =
    if any (λ s. r.source_system == s) allowed_source_systems
    then none
    else some (failed, unknown_source r.source_system)

unfoldable pub check_scope : Option String → EvidenceRef → Check
check_scope none r = none
check_scope (some project) r =
    if r.project_id == project
    then none
    else some (scope_mismatch, project_differs r.project_id project)

unfoldable pub check_expiry : ℕ → Option ℕ → Check
check_expiry now none = none
check_expiry now (some t) = if leb t now then some (expired, expired_at t) else none

unfoldable pub check_hash : EvidenceRef → Check
unfolding hash_required is_hex
check_hash r =
    if not (hash_required r.artifact_type)
    then none
    else if r.sha256 == ""
    then some (failed, hash_empty)
    else if not (characters r.sha256 == 64)
    then some (hash_mismatch, hash_length (characters r.sha256))
    else if not (all_codes is_hex r.sha256)
    then some (hash_mismatch, hash_not_hex)
    else none

-- What an answer of the store says of the hash of the reference.
unfoldable pub compare_checksum : EvidenceRef → Option String → Check
compare_checksum r none = some (failed, unreadable r.uri)
compare_checksum r (some actual) =
    if actual == r.sha256 then none else some (hash_mismatch, checksum_differs r.sha256 actual)

unfoldable pub check_content : Option (String → Option String) → EvidenceRef → Check
unfolding compare_checksum
check_content none r = none
check_content (some get_json) r =
    if r.sha256 == "" then none else compare_checksum r (get_json r.uri)

-- The copy that is returned after the checks.
unfoldable pub concluded : Check → EvidenceRef → EvidenceRef
unfolding marked
concluded none r = marked verified none r
concluded (some (status, problem)) r = marked status (some problem) r

module _ (artifact_store : Option (String → Option String)) (context_project_id : Option String)
    (now : ℕ) where
  unfoldable pub first_failure : EvidenceRef → Check
  unfolding check_source check_scope check_expiry check_hash check_content
  first_failure r =
      check_source r
      then_check check_scope context_project_id r
      then_check check_expiry now r.expires_at
      then_check check_hash r
      then_check check_content artifact_store r

  unfoldable pub verify_evidence_ref : EvidenceRef → EvidenceRef
  unfolding first_failure concluded
  verify_evidence_ref r = concluded (first_failure r) r
