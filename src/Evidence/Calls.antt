-- ===== src/Evidence/Calls.antt =====
-- The handlers of services/api/routes/evidence.py on the ledger in memory.
use nautilus_builder.Prelude.{
  ℕ, false, Option, none, some, String, ok, ◌≡◌, ◌≢◌, ◌↔◌, refl, sym, ap, ◌∙◌, arith, ◌==◌, eq_iff,
  string_eq, ◌⊎◌, inl, inr, if◌then◌else◌, Option-cases,
}
use nautilus_builder.Prelude.Dict.{get, put}
use nautilus_builder.Prelude.Dict.Laws.{get-put, get-put_self}
use nautilus_builder.Evidence.Models.{
  EvidenceRef, VerificationStatus, Problem, verified, invalid_ref,
}
use nautilus_builder.Evidence.Verifier.{marked, verify_evidence_ref}
use nautilus_builder.Evidence.Verified.{IsVerifiable, verify_evidence_ref_iff}
use nautilus_builder.Evidence.Repository.{
  Ledger, save, in_project, get_ref, update_verification, create_evidence, verify_evidence,
}

in_project-some :
    (project : String) (o : Option EvidenceRef) (r : EvidenceRef)
    → in_project project o ≡ some r
    → (o ≡ some r) × (r.project_id ≡ project)
in_project-some project none r h = cc
in_project-some project (some q) r h = ground (arith, eq_iff q.project_id project)

get_ref-put :
    (k project : String) (r : EvidenceRef) (s : Ledger)
    → r.project_id ≡ project
    → get_ref k project (put k r s) ≡ some r
unfolding get_ref
get_ref-put k project r s same =
    rw (get-put_self k r s, in_project) (rw same (ground (arith, eq_iff project project)))

get_ref-put_foreign :
    (k project : String) (r : EvidenceRef) (s : Ledger)
    → r.project_id ≢ project
    → get_ref k project (put k r s) ≡ none
unfolding get_ref
get_ref-put_foreign k project r s other =
    rw (get-put_self k r s, in_project) (ground (arith, eq_iff r.project_id project))

update_verification_known :
    (evidence_id project_id : String) (status : VerificationStatus) (problem : Option Problem)
    (s : Ledger) (r : EvidenceRef)
    → get_ref evidence_id project_id s ≡ some r
    → update_verification evidence_id project_id status problem s
      ≡ (some (marked status problem r), put evidence_id (marked status problem r) s)
unfolding update_verification
update_verification_known evidence_id project_id status problem s r found =
    rw (found, update_verification) refl

module _ (artifact_store : Option (String → Option String)) (now : ℕ)
    (evidence_id project_id : String) (s : Ledger) where
  abbrev after : Ledger
  after = (verify_evidence artifact_store now evidence_id project_id s).1

  abbrev verdict : EvidenceRef → EvidenceRef
  verdict r = verify_evidence_ref artifact_store (some project_id) now r

  verified_found :
      (r : EvidenceRef)
      → get_ref evidence_id project_id s ≡ some r
      → verify_evidence artifact_store now evidence_id project_id s
        ≡ (some (verdict r), put evidence_id (verdict r) s)
  unfolding verify_evidence
  verified_found r found =
      let v = verdict r in
      let (_, _, copied) = verify_evidence_ref_iff artifact_store (some project_id) now r in
      let written =
        update_verification_known evidence_id project_id v.verification_status v.verification_error
          s r found in
      rw (found, verify_evidence)
        (rw (written, verify_evidence)
          (λ i. (some (sym copied i), put evidence_id (sym copied i) s)))

  -- The handler that verifies evidence of a project: where the project has no such evidence, it gives
  -- nothing and changes nothing. Otherwise it gives the evidence with its verdict, which is `verified`
  -- exactly if the evidence passes every check for this project; the project reads the same from then
  -- on, and evidence under another id is left as it was.
  pub verify_evidence_lem :
      (j : String)
      → ((get_ref evidence_id project_id s ≡ none)
          × (verify_evidence artifact_store now evidence_id project_id s ≡ (none, s)))
        ⊎ ((r : EvidenceRef) × (get_ref evidence_id project_id s ≡ some r)
            × ((verify_evidence artifact_store now evidence_id project_id s).0 ≡ some (verdict r))
            × (((verdict r).verification_status ≡ verified)
                ↔ IsVerifiable artifact_store (some project_id) now r)
            × (get_ref evidence_id project_id after ≡ some (verdict r))
            × (get j after ≡ (if evidence_id == j then some (verdict r) else get j s)))
  unfolding verify_evidence get_ref
  verify_evidence_lem j = elim (Option-cases (get_ref evidence_id project_id s)) [
    | inl unknown ↦ inl (unknown, rw (unknown, verify_evidence) refl)
    | inr (r, found) ↦
        let (checked, _, copied) = verify_evidence_ref_iff artifact_store (some project_id) now r in
        let done = verified_found r found in
        let (_, own) = in_project-some project_id (get evidence_id s) r found in
        let same_project : (verdict r).project_id ≡ project_id =
          ap (λ (x : EvidenceRef). x.project_id) copied ∙ own in
        let kept : after ≡ put evidence_id (verdict r) s = λ i. (done i).1 in
        inr (
          r,
          found,
          (λ i. (done i).0),
          checked,
          (λ i. get_ref evidence_id project_id (kept i))
              ∙ get_ref-put evidence_id project_id (verdict r) s same_project,
          (λ i. get j (kept i)) ∙ get-put evidence_id j (verdict r) s,
        )
  ]

-- A reference can be created under an id that is taken by another project, in any state that the client
-- sends, also as verified: the project that had the evidence no longer finds it, and the project that
-- the client names finds the new one as it was sent.
pub create_evidence_takes_over :
    (r q : EvidenceRef) (s : Ledger)
    → get_ref q.evidence_id r.project_id s ≡ some r
    → q.project_id ≢ r.project_id
    → invalid_ref q ≡ false
    → (create_evidence q s ≡ ok (q, save q s))
      × (get_ref q.evidence_id r.project_id (save q s) ≡ none)
      × (get_ref q.evidence_id q.project_id (save q s) ≡ some q)
unfolding create_evidence save
create_evidence_takes_over r q s found other valid = (
  rw (valid, create_evidence) refl,
  get_ref-put_foreign q.evidence_id r.project_id q s other,
  get_ref-put q.evidence_id q.project_id q s refl,
)
