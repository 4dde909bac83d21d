-- ===== src/Evidence/Repository.antt =====
-- `InMemoryEvidenceRepository` of packages/evidence_ledger/in_memory_repository.py, its guard of
-- factory.py, and the handlers of services/api/routes/evidence.py.
use nautilus_builder.Prelude.{
  ℕ, Bool, ◌&&◌, Option, none, some, String, List, ◌==◌, string_eq, optional_eq, if◌then◌else◌,
  select, drop, Result, ok, ◌>>◌, raise_if,
}
use nautilus_builder.Prelude.Sorted.{sorted_by, take}
use nautilus_builder.Prelude.Dict.{Dict, get, put, values}
use nautilus_builder.Auth.Policy.{BuilderEnvironment, local}
use nautilus_builder.Evidence.Models.{EvidenceRef, VerificationStatus, Problem, invalid_ref}
use nautilus_builder.Evidence.Verifier.{marked, verify_evidence_ref}

abbrev pub Ledger : Type 0
Ledger = Dict String EvidenceRef

pub data EvidenceError : Type 0 where
  invalid_payload in_memory_forbidden : EvidenceError

unfoldable pub save : EvidenceRef → Ledger → Ledger
save r s = put r.evidence_id r s

abbrev pub in_project : String → Option EvidenceRef → Option EvidenceRef
in_project project none = none
in_project project (some r) = if r.project_id == project then some r else none

-- `get`: of another project's evidence it gives nothing.
unfoldable pub get_ref : String → String → Ledger → Option EvidenceRef
get_ref evidence_id project_id s = in_project project_id (get evidence_id s)

unfoldable pub list_by_project : String → ℕ → ℕ → Ledger → List EvidenceRef
list_by_project project_id limit offset s =
    let all_refs =
      sorted_by (λ (r : EvidenceRef). r.evidence_id)
        (select (λ (r : EvidenceRef). r.project_id == project_id) (values s)) in
    take limit (drop offset all_refs)

unfoldable pub list_by_strategy_lineage : String → String → Ledger → List EvidenceRef
list_by_strategy_lineage project_id lineage s =
    select
      (λ (r : EvidenceRef). r.project_id == project_id && r.strategy_lineage_id == some lineage)
      (values s)

unfoldable pub update_verification :
    String → String → VerificationStatus → Option Problem → Ledger → Option EvidenceRef × Ledger
unfolding get_ref marked
update_verification evidence_id project_id status problem s =
    elim (get_ref evidence_id project_id s) [
      | none ↦ (none, s)
      | some r ↦ (some (marked status problem r), put evidence_id (marked status problem r) s)
    ]

-- `create_evidence_repository_for_env`; the flag tells whether the repository is the one in memory.
unfoldable pub create_evidence_repository_for_env :
    BuilderEnvironment → Bool → Result EvidenceError (Unit {0})
create_evidence_repository_for_env local in_memory = ok tt
create_evidence_repository_for_env _ in_memory = raise_if in_memory in_memory_forbidden

-- `create_evidence` on the fields that the client sent: pydantic refuses empty texts.
unfoldable pub create_evidence : EvidenceRef → Ledger → Result EvidenceError (EvidenceRef × Ledger)
unfolding invalid_ref save
create_evidence r s = raise_if (invalid_ref r) invalid_payload >> ok (r, save r s)

-- `get_evidence`
abbrev pub get_evidence : String → String → Ledger → Option EvidenceRef
get_evidence = get_ref

-- `verify_evidence`: the verdict is written back, where the reference is still there.
unfoldable pub verify_evidence :
    Option (String → Option String) → ℕ → String → String → Ledger → Option EvidenceRef × Ledger
unfolding get_ref update_verification
verify_evidence artifact_store now evidence_id project_id s =
    elim (get_ref evidence_id project_id s) [
      | none ↦ (none, s)
      | some r ↦
          let v = verify_evidence_ref artifact_store (some project_id) now r in
          let (updated, later) =
            update_verification evidence_id project_id v.verification_status v.verification_error
              s in
          (elim updated [ none ↦ some v | some u ↦ some u ], later)
    ]

unfoldable pub list_evidence_for_strategy : String → String → Ledger → List EvidenceRef
unfolding list_by_project list_by_strategy_lineage
list_evidence_for_strategy lineage project_id s =
    if lineage == ""
    then list_by_project project_id 100 0 s
    else list_by_strategy_lineage project_id lineage s
