-- ===== src/Promotions/Evidence.antt =====
-- What a promotion request of packages/promotions/service.py that was made rests on.
use nautilus_builder.Prelude.{
  Bool, true, false, not, some, String, List, [], ◌∷◌, ok, or_raise, >>=-eq-ok, passed, passed_eq,
  ◌==◌, string_eq, optional_eq, ◌≡◌, ◌∙◌, refl, sym, ap, arith,
}
use mathlib.Core.Path.{subst}
use nautilus_builder.Prelude.Text.{strip, starts_with}
use nautilus_builder.Prelude.Dict.{Dict, get}
use nautilus_builder.Json.{Payload}
use nautilus_builder.Promotions.Service.{
  PromotionRequest, StoredArtifact, ArtifactStore, artifact_prefix, evidence_fields, strict_text,
  read_fields, only_keys, validate_refs, binding_value, bound_version, assert_evidence_binding,
  check_evidence, collect_checksums, request, validate_evidence, create_shadow_request,
  create_final_candidate,
}

module _ (st : ArtifactStore) (compile_hash version : String) where
  -- The artifact of a reference has the type of its key, and is bound to the compile hash and to the
  -- strategy version; the checksum is its own.
  abbrev pub IsBound : String → String → String → Type 0
  IsBound key ref checksum =
      (a : StoredArtifact) × (st.get_json ref ≡ ok a)
      × (a.artifact_type ≡ key)
      × (binding_value st.repr a "compile_hash" ≡ some compile_hash)
      × (bound_version st.repr a ≡ some version)
      × (a.checksum_sha256 ≡ checksum)

  -- One checksum for each reference, under the same key.
  abbrev pub AllBound : Dict String String → Dict String String → Type 0
  AllBound [] [] = Unit
  AllBound ((key, ref) ∷ refs) ((key', checksum) ∷ sums) =
      (key' ≡ key) × IsBound key ref checksum × AllBound refs sums
  AllBound _ _ = ⊥

  assert_evidence_binding_lem :
      (key : String) (a : StoredArtifact)
      → assert_evidence_binding st.repr key a compile_hash version ≡ ok tt
      → (binding_value st.repr a "compile_hash" ≡ some compile_hash)
        × (bound_version st.repr a ≡ some version)
  unfolding assert_evidence_binding
  assert_evidence_binding_lem key a h =
      let (e₁, k₁) = passed_eq (binding_value st.repr a "compile_hash") (some compile_hash) _ _ h in
      let (e₂, k₂) = passed_eq (bound_version st.repr a) (some version) _ _ k₁ in (e₁, e₂)

  check_evidence-IsBound :
      (key ref checksum : String)
      → check_evidence st compile_hash version (key, ref) ≡ ok checksum
      → IsBound key ref checksum
  unfolding check_evidence
  check_evidence-IsBound key ref checksum h =
      let (_, k₁) = passed (not (starts_with ref artifact_prefix)) _ _ h in
      let (a, e₁, k₂) = >>=-eq-ok (st.get_json ref) _ k₁ in
      let (e₂, k₃) = passed_eq a.artifact_type key _ _ k₂ in
      let (_, e₃, k₄) =
        >>=-eq-ok (assert_evidence_binding st.repr key a compile_hash version) _ k₃ in
      let (b₁, b₂) = assert_evidence_binding_lem key a e₃ in (a, e₁, e₂, b₁, b₂, ground arith)

  collect_checksums-AllBound :
      (refs sums : Dict String String)
      → collect_checksums st compile_hash version refs ≡ ok sums
      → AllBound refs sums
  unfolding collect_checksums
  collect_checksums-AllBound [] [] h = tt
  collect_checksums-AllBound [] (x ∷ sums) h = cc
  collect_checksums-AllBound ((key, ref) ∷ refs) [] h =
      let (checksum, _, k₁) = >>=-eq-ok (check_evidence st compile_hash version (key, ref)) _ h in
      let (rest, _, k₂) = >>=-eq-ok (collect_checksums st compile_hash version refs) _ k₁ in cc k₂
  collect_checksums-AllBound ((key, ref) ∷ refs) ((key', sum) ∷ sums) h =
      let (checksum, e₁, k₁) = >>=-eq-ok (check_evidence st compile_hash version (key, ref)) _ h in
      let (rest, e₂, k₂) = >>=-eq-ok (collect_checksums st compile_hash version refs) _ k₁ in
      let same : checksum ≡ sum = ground arith in
      let same_rest : rest ≡ sums = ground arith in
      (
        ground arith,
        check_evidence-IsBound key ref sum (e₁ ∙ ap ok same),
        collect_checksums-AllBound refs sums (e₂ ∙ ap ok same_rest),
      )

abbrev pub keys : Dict String String → List String
keys [] = []
keys ((k, v) ∷ d) = k ∷ keys d

read_fields-keys :
    (fs : List String) (d : Payload) (refs : Dict String String)
    → read_fields fs d ≡ ok refs
    → keys refs ≡ fs
unfolding read_fields
read_fields-keys [] d [] h = refl
read_fields-keys [] d (x ∷ refs) h = cc
read_fields-keys (f ∷ fs) d refs h =
    let (ref, _, k₁) = >>=-eq-ok (or_raise (strict_text (get f d)) _) _ h in
    let (rest, e, k₂) = >>=-eq-ok (read_fields fs d) _ k₁ in
    let same : (f, ref) ∷ rest ≡ refs = ground arith in
    ap keys (sym same) ∙ ap (λ (ks : List String). f ∷ ks) (read_fields-keys fs d rest e)

validate_refs-keys :
    (d : Payload) (refs : Dict String String)
    → validate_refs d ≡ ok refs
    → keys refs ≡ evidence_fields
unfolding validate_refs
validate_refs-keys d refs h =
    let (rs, e, k₁) = >>=-eq-ok (read_fields evidence_fields d) _ h in
    let (_, k₂) = passed (not (only_keys evidence_fields d)) _ _ k₁ in
    let same : rs ≡ refs = ground arith in read_fields-keys evidence_fields d refs (e ∙ ap ok same)

validate_evidence-AllBound :
    (st : ArtifactStore) (d : Payload) (version compile_hash : String)
    (refs sums : Dict String String)
    → validate_evidence (some st) d version compile_hash ≡ ok (refs, sums)
    → (keys refs ≡ evidence_fields) × AllBound st compile_hash version refs sums
unfolding validate_evidence
validate_evidence-AllBound st d version compile_hash refs sums h =
    let (rs, e₁, k₁) = >>=-eq-ok (validate_refs d) _ h in
    let (cs, e₂, k₂) = >>=-eq-ok (collect_checksums st compile_hash version rs) _ k₁ in
    let same : rs ≡ refs = ground arith in
    let same_sums : cs ≡ sums = ground arith in
    (
      validate_refs-keys d refs (e₁ ∙ ap ok same),
      collect_checksums-AllBound st compile_hash version refs sums
          (rw same at (rw same_sums at e₂)),
    )

-- A request that was made by either method of a service with a store: it allows no order and no
-- trade action; it names all six pieces of evidence; and each of them is an artifact of its type that
-- is bound to the compile hash and the strategy version of the request, and listed with its checksum.
abbrev pub IsSupported : ArtifactStore → PromotionRequest → Type 0
IsSupported st r =
    (r.may_submit_order ≡ false)
    × (r.may_create_trade_action ≡ false)
    × (r.gate_compatibility ≡ true)
    × (keys r.evidence_refs ≡ evidence_fields)
    × AllBound st r.compile_hash r.strategy_version r.evidence_refs r.evidence_checksums

-- A shadow request that a service with an artifact store has made allows no order and no trade action, names all six pieces of
-- evidence, each an artifact of its type that is bound to the compile hash and the strategy version of
-- the request and listed with its checksum, and has no manual approval.
pub create_shadow_request-IsSupported :
    (st : ArtifactStore) (version compile_hash : String) (gate : Bool) (d : Payload)
    (r : PromotionRequest)
    → create_shadow_request (some st) version compile_hash gate d ≡ ok r
    → IsSupported st r × (r.manual_approval ≡ false)
unfolding create_shadow_request
create_shadow_request-IsSupported st version compile_hash gate d r h =
    let (_, k₁) = passed (strip version == "") _ _ h in
    let (_, k₂) = passed (strip compile_hash == "") _ _ k₁ in
    let (_, k₃) = passed (not gate) _ _ k₂ in
    let (e, e₁, k₄) = >>=-eq-ok (validate_evidence (some st) d version compile_hash) _ k₃ in
    let (b₁, b₂) = validate_evidence-AllBound st d version compile_hash e.0 e.1 e₁ in
    let same : request version compile_hash false e.0 e.1 ≡ r = ground arith in
    subst (λ (q : PromotionRequest). IsSupported st q × (q.manual_approval ≡ false)) same
      ((refl, refl, refl, b₁, b₂), refl)

-- A final candidate that a service with an artifact store has made allows no order and no trade action, names all six pieces of
-- evidence, each an artifact of its type that is bound to the compile hash and the strategy version of
-- the candidate and listed with its checksum; and it was made with manual approval.
pub create_final_candidate-IsSupported :
    (st : ArtifactStore) (version compile_hash : String) (gate approval : Bool) (d : Payload)
    (r : PromotionRequest)
    → create_final_candidate (some st) version compile_hash gate approval d ≡ ok r
    → IsSupported st r × (r.manual_approval ≡ true) × (approval ≡ true)
unfolding create_final_candidate
create_final_candidate-IsSupported st version compile_hash gate approval d r h =
    let (_, k₁) = passed (strip version == "") _ _ h in
    let (_, k₂) = passed (strip compile_hash == "") _ _ k₁ in
    let (given, k₃) = passed (not approval) _ _ k₂ in
    let (_, k₄) = passed (not gate) _ _ k₃ in
    let (e, e₁, k₅) = >>=-eq-ok (validate_evidence (some st) d version compile_hash) _ k₄ in
    let (b₁, b₂) = validate_evidence-AllBound st d version compile_hash e.0 e.1 e₁ in
    let approved : approval ≡ true = ground arith in
    let same : request version compile_hash true e.0 e.1 ≡ r = ground arith in
    subst
      (λ (q : PromotionRequest). IsSupported st q × (q.manual_approval ≡ true) × (approval ≡ true))
      same ((refl, refl, refl, b₁, b₂), refl, approved)
