-- ===== src/Evidence/Verified.antt =====
-- What evidence is verified by packages/evidence_ledger/verifier.py.
use nautilus_builder.Prelude.{
  ℕ, ◌<◌, true, false, Option, none, some, String, any, ◌==◌, ◌≡◌, ap, ◌≢◌, ◌↔◌, ◌⊎◌, inl, inr,
  refl, arith, eq_iff, string_eq, Bool-cases,
}
use nautilus_builder.Prelude.Text.{characters, all_codes}
use nautilus_builder.Evidence.Models.{EvidenceRef, verified}
use nautilus_builder.Evidence.Verifier.{
  hash_required, allowed_source_systems, is_hex, marked, Check, check_source, check_scope,
  check_expiry, check_hash, compare_checksum, check_content, concluded, first_failure, ◌then_check◌,
  verify_evidence_ref,
}

abbrev pub FromKnownSource : EvidenceRef → Type 0
FromKnownSource r = any (λ s. r.source_system == s) allowed_source_systems ≡ true

abbrev pub InScope : Option String → EvidenceRef → Type 0
InScope none r = Unit
InScope (some project) r = r.project_id ≡ project

abbrev pub Unexpired : ℕ → Option ℕ → Type 0
Unexpired now none = Unit
Unexpired now (some t) = now < t

abbrev pub HasHash : EvidenceRef → Type 0
HasHash r =
    (hash_required r.artifact_type ≡ false)
    ⊎ ((characters r.sha256 ≡ 64) × (all_codes is_hex r.sha256 ≡ true))

abbrev pub MatchesContent : Option (String → Option String) → EvidenceRef → Type 0
MatchesContent none r = Unit
MatchesContent (some get_json) r = (r.sha256 ≡ "") ⊎ (get_json r.uri ≡ some r.sha256)

-- No check says that the evidence is verified.
abbrev Denies : Check → Type 0
Denies none = Unit
Denies (some (status, problem)) = status ≢ verified

then_check-none : (a b : Check) → ((a then_check b) ≡ none) ↔ ((a ≡ none) × (b ≡ none))
then_check-none none b = ((λ h. (refl, h)), λ h. h.1)
then_check-none (some found) b = ((λ h. cc), λ h. cc)

then_check-Denies : (a b : Check) → Denies a → Denies b → Denies (a then_check b)
then_check-Denies none b p q = q
then_check-Denies (some found) b p q = p

check_source-none : (r : EvidenceRef) → (check_source r ≡ none) ↔ FromKnownSource r
unfolding check_source
check_source-none r = elim (Bool-cases (any (λ s. r.source_system == s) allowed_source_systems)) [
  | inl known ↦ rw known ((λ h. refl), λ h. refl)
  | inr unknown ↦ rw unknown ((λ h. cc), λ h. cc)
]

check_source-Denies : (r : EvidenceRef) → Denies (check_source r)
unfolding check_source
check_source-Denies r = elim (Bool-cases (any (λ s. r.source_system == s) allowed_source_systems)) [
  | inl known ↦ rw known tt
  | inr unknown ↦ rw unknown (λ h. cc)
]

check_scope-none : (c : Option String) (r : EvidenceRef) → (check_scope c r ≡ none) ↔ InScope c r
unfolding check_scope
check_scope-none none r = ((λ h. tt), λ h. refl)
check_scope-none (some p) r = ground (arith, eq_iff r.project_id p)

check_scope-Denies : (c : Option String) (r : EvidenceRef) → Denies (check_scope c r)
unfolding check_scope
check_scope-Denies none r = tt
check_scope-Denies (some p) r = ground (arith, eq_iff r.project_id p)

check_expiry-none : (now : ℕ) (t : Option ℕ) → (check_expiry now t ≡ none) ↔ Unexpired now t
unfolding check_expiry
check_expiry-none now none = ((λ h. tt), λ h. refl)
check_expiry-none now (some t) = ground arith

check_expiry-Denies : (now : ℕ) (t : Option ℕ) → Denies (check_expiry now t)
unfolding check_expiry
check_expiry-Denies now none = tt
check_expiry-Denies now (some t) = ground arith

characters_empty : (s : String) → s ≡ "" → characters s ≡ 0
unfolding characters
characters_empty s h = ap characters h

check_hash-none : (r : EvidenceRef) → (check_hash r ≡ none) ↔ HasHash r
unfolding check_hash
check_hash-none r = ground (arith, eq_iff r.sha256 "", characters_empty r.sha256)

check_hash-Denies : (r : EvidenceRef) → Denies (check_hash r)
unfolding check_hash
check_hash-Denies r = ground (arith, eq_iff r.sha256 "")

compare_checksum-none :
    (r : EvidenceRef) (o : Option String) → (compare_checksum r o ≡ none) ↔ (o ≡ some r.sha256)
unfolding compare_checksum
compare_checksum-none r none = ground arith
compare_checksum-none r (some actual) = ground (arith, eq_iff actual r.sha256)

compare_checksum-Denies : (r : EvidenceRef) (o : Option String) → Denies (compare_checksum r o)
unfolding compare_checksum
compare_checksum-Denies r none = λ h. cc
compare_checksum-Denies r (some actual) = ground (arith, eq_iff actual r.sha256)

check_content-none :
    (st : Option (String → Option String)) (r : EvidenceRef)
    → (check_content st r ≡ none) ↔ MatchesContent st r
unfolding check_content
check_content-none none r = ((λ h. tt), λ h. refl)
check_content-none (some get_json) r = elim (Bool-cases (r.sha256 == "")) [
  | inl empty ↦ rw empty ((λ h. inl ((eq_iff r.sha256 "").0 empty)), λ h. refl)
  | inr given ↦ rw given (
    (λ h. inr ((compare_checksum-none r (get_json r.uri)).0 h)),
    ground (arith, eq_iff r.sha256 "", compare_checksum-none r (get_json r.uri)),
  )
]

check_content-Denies :
    (st : Option (String → Option String)) (r : EvidenceRef) → Denies (check_content st r)
unfolding check_content
check_content-Denies none r = tt
check_content-Denies (some get_json) r = elim (Bool-cases (r.sha256 == "")) [
  | inl empty ↦ rw empty tt
  | inr given ↦ rw given (compare_checksum-Denies r (get_json r.uri))
]

concluded_iff :
    (c : Check) (r : EvidenceRef)
    → Denies c
    → (((concluded c r).verification_status ≡ verified) ↔ (c ≡ none))
      × (((concluded c r).verification_error ≡ none) ↔ (c ≡ none))
      × (concluded c r
          ≡ marked (concluded c r).verification_status (concluded c r).verification_error r)
unfolding concluded marked
concluded_iff none r d = (((λ h. refl), λ h. refl), ((λ h. refl), λ h. refl), refl)
concluded_iff (some (status, problem)) r d =
    (((λ h. absurd (d h)), λ h. cc), ((λ h. cc), λ h. cc), refl)

module _ (artifact_store : Option (String → Option String)) (context_project_id : Option String)
    (now : ℕ) (r : EvidenceRef) where
  abbrev pub IsVerifiable : Type 0
  IsVerifiable =
      FromKnownSource r
      × InScope context_project_id r
      × Unexpired now r.expires_at
      × HasHash r
      × MatchesContent artifact_store r

  first_failure-none : (first_failure artifact_store context_project_id now r ≡ none) ↔ IsVerifiable
  unfolding first_failure
  first_failure-none =
      let c5 = check_content artifact_store r in
      let c4 = check_hash r in
      let c3 = check_expiry now r.expires_at in
      let c2 = check_scope context_project_id r in
      let s1 = then_check-none (check_source r) (c2 then_check c3 then_check c4 then_check c5) in
      let s2 = then_check-none c2 (c3 then_check c4 then_check c5) in
      let s3 = then_check-none c3 (c4 then_check c5) in
      let s4 = then_check-none c4 c5 in
      let p1 = check_source-none r in
      let p2 = check_scope-none context_project_id r in
      let p3 = check_expiry-none now r.expires_at in
      let p4 = check_hash-none r in
      let p5 = check_content-none artifact_store r in
      (
        (λ h.
            let (a, h2) = s1.0 h in
            let (b, h3) = s2.0 h2 in
            let (c, h4) = s3.0 h3 in
            let (d, e) = s4.0 h4 in (p1.0 a, p2.0 b, p3.0 c, p4.0 d, p5.0 e)),
        λ h. s1.1 (p1.1 h.0, s2.1 (p2.1 h.1, s3.1 (p3.1 h.2, s4.1 (p4.1 h.3, p5.1 h.4)))),
      )

  first_failure-Denies : Denies (first_failure artifact_store context_project_id now r)
  unfolding first_failure
  first_failure-Denies = then_check-Denies _ _ (check_source-Denies r) (
      then_check-Denies _ _ (check_scope-Denies context_project_id r) (
        then_check-Denies _ _ (check_expiry-Denies now r.expires_at)
          (then_check-Denies _ _ (check_hash-Denies r) (check_content-Denies artifact_store r))))

  abbrev verdict : EvidenceRef
  verdict = verify_evidence_ref artifact_store context_project_id now r

  -- Evidence is marked as verified exactly if it names a known source, belongs to the project that
  -- asks, has not expired, has a hash of 64 hexadecimal digits in lower case where its type asks for
  -- one, and agrees with the artifact store, where there is one and the hash is not empty. An error is
  -- given exactly where it is not verified, and nothing else of the reference changes.
  pub verify_evidence_ref_iff :
      ((verdict.verification_status ≡ verified) ↔ IsVerifiable)
      × ((verdict.verification_error ≡ none) ↔ IsVerifiable)
      × (verdict ≡ marked verdict.verification_status verdict.verification_error r)
  unfolding verify_evidence_ref
  verify_evidence_ref_iff =
      let (ok_status, no_error, copied) =
        concluded_iff (first_failure artifact_store context_project_id now r) r
          first_failure-Denies in
      let all = first_failure-none in
      (
        ((λ h. all.0 (ok_status.0 h)), λ h. ok_status.1 (all.1 h)),
        ((λ h. all.0 (no_error.0 h)), λ h. no_error.1 (all.1 h)),
        copied,
      )
