-- ===== src/Artifacts/Paths.antt =====
-- Identifiers that are safe hold no slash, so that a reference and a path of an artifact determine its
-- scope.
use nautilus_builder.Prelude.{
  ℕ, true, not, String, List, [], ◌∷◌, ok, ◌==◌, string_eq, nat_eq, ◌≡◌, refl, sym, ap, ◌∙◌, arith,
  >>=-eq-ok, passed,
}
use nautilus_builder.Prelude.Text.{append, append_cancel, split_at, all_codes}
use nautilus_builder.Prelude.Slashes.{
  slash, slashless, joined, split_at-joined, split_at-slashless, all_codes-append, joined_assoc,
  append_cancel_right, all_codes_mono,
}
use nautilus_builder.Auth.Models.{ScopedArtifactRef}
use nautilus_builder.Artifacts.Store.{
  invalid_ref, is_alphanumeric, is_safe_code, is_safe, safe_identifier, artifact_prefix,
  artifact_ref_of, scope_of_parts, scoped_ref, path_for,
}

pub safe_identifier-eq-ok : (s t : String) → safe_identifier s ≡ ok t → (is_safe s ≡ true) × (t ≡ s)
unfolding safe_identifier
safe_identifier-eq-ok s t h = ground arith

pub safe_identifier_safe : (s : String) → is_safe s ≡ true → safe_identifier s ≡ ok s
unfolding safe_identifier
safe_identifier_safe s h = rw (h, safe_identifier) refl

safe_code_slashless : (c : ℕ) → is_safe_code c ≡ true → not (c == slash) ≡ true
unfolding is_safe_code is_alphanumeric
safe_code_slashless c h = ground arith

pub is_safe-slashless : (s : String) → is_safe s ≡ true → slashless s ≡ true
unfolding is_safe
is_safe-slashless s h =
    all_codes_mono is_safe_code (λ c. not (c == slash)) s safe_code_slashless (ground arith)

-- All four texts of a scope are safe.
abbrev pub AllSafe : ScopedArtifactRef → Type 0
AllSafe a =
    (is_safe a.project_id ≡ true)
    × (is_safe a.user_id ≡ true)
    × (is_safe a.artifact_type ≡ true)
    × (is_safe a.artifact_id ≡ true)

module _ (root : String) (a : ScopedArtifactRef) where
  abbrev pub path_text : String
  path_text = joined root (
      joined a.project_id
        (joined a.user_id (joined a.artifact_type (append a.artifact_id ".json"))))

  pub path_for-eq-ok : (path : String) → path_for root a ≡ ok path → AllSafe a × (path ≡ path_text)
  unfolding path_for
  path_for-eq-ok path h =
      let (p, e1, r1) = >>=-eq-ok (safe_identifier a.project_id) _ h in
      let (u, e2, r2) = >>=-eq-ok (safe_identifier a.user_id) _ r1 in
      let (k, e3, r3) = >>=-eq-ok (safe_identifier a.artifact_type) _ r2 in
      let (i, e4, r4) = >>=-eq-ok (safe_identifier a.artifact_id) _ r3 in
      let (s1, t1) = safe_identifier-eq-ok a.project_id p e1 in
      let (s2, t2) = safe_identifier-eq-ok a.user_id u e2 in
      let (s3, t3) = safe_identifier-eq-ok a.artifact_type k e3 in
      let (s4, t4) = safe_identifier-eq-ok a.artifact_id i e4 in
      (
        (s1, s2, s3, s4),
        cc r4 ∙ (λ j.
            joined root (joined (t1 j) (joined (t2 j) (joined (t3 j) (append (t4 j) ".json"))))),
      )

  pub path_for_safe : AllSafe a → path_for root a ≡ ok path_text
  unfolding path_for
  path_for_safe (p, u, k, i) =
      rw (safe_identifier_safe a.project_id p, path_for)
        (rw (safe_identifier_safe a.user_id u, path_for)
          (rw (safe_identifier_safe a.artifact_type k, path_for)
            (rw (safe_identifier_safe a.artifact_id i, path_for) refl)))

-- The seven parts of a reference.
artifact_ref_parts :
    (a : ScopedArtifactRef)
    → AllSafe a
    → split_at slash (artifact_ref_of a)
      ≡ "artifact:" ∷ "" ∷ "builder" ∷ a.project_id ∷ a.user_id ∷ a.artifact_type ∷ a.artifact_id
        ∷ []
unfolding artifact_ref_of all_codes
artifact_ref_parts a (p, u, k, i) =
    let kinds = joined a.artifact_type a.artifact_id in
    let users = joined a.user_id kinds in
    let projects = joined a.project_id users in
    let regrouped : joined artifact_prefix projects
        ≡ joined "artifact:" (joined "" (joined "builder" projects)) =
      joined_assoc "artifact:" (joined "" "builder") projects
      ∙ ap (joined "artifact:") (joined_assoc "" "builder" projects) in
    ap (split_at slash) regrouped
    ∙ split_at-joined "artifact:" (joined "" (joined "builder" projects)) refl
    ∙ (λ j. "artifact:" ∷ split_at-joined "" (joined "builder" projects) refl j)
    ∙ (λ j. "artifact:" ∷ "" ∷ split_at-joined "builder" projects refl j)
    ∙ (λ j.
        "artifact:"
        ∷ ""
        ∷ "builder"
        ∷ split_at-joined a.project_id users (is_safe-slashless a.project_id p) j)
    ∙ (λ j.
        "artifact:"
        ∷ ""
        ∷ "builder"
        ∷ a.project_id
        ∷ split_at-joined a.user_id kinds (is_safe-slashless a.user_id u) j)
    ∙ (λ j.
        "artifact:"
        ∷ ""
        ∷ "builder"
        ∷ a.project_id
        ∷ a.user_id
        ∷ split_at-joined a.artifact_type a.artifact_id (is_safe-slashless a.artifact_type k) j)
    ∙ (λ j.
        "artifact:"
        ∷ ""
        ∷ "builder"
        ∷ a.project_id
        ∷ a.user_id
        ∷ a.artifact_type
        ∷ split_at-slashless a.artifact_id (is_safe-slashless a.artifact_id i) j)

-- The reference that is made for a safe scope reads back as that scope.
pub scoped_ref-artifact_ref_of :
    (a : ScopedArtifactRef) → AllSafe a → scoped_ref (artifact_ref_of a) ≡ ok a
unfolding scoped_ref scope_of_parts
scoped_ref-artifact_ref_of a (p, u, k, i) =
    rw (artifact_ref_parts a (p, u, k, i), scope_of_parts)
      (rw (safe_identifier_safe a.artifact_type k, scope_of_parts)
        (rw (safe_identifier_safe a.artifact_id i, scope_of_parts)
          (rw (safe_identifier_safe a.user_id u, scope_of_parts)
            (rw (safe_identifier_safe a.project_id p, scope_of_parts) refl))))

-- The path of a safe scope is its own.
path_parts :
    (a : ScopedArtifactRef)
    → AllSafe a
    → split_at slash (
        joined a.project_id
          (joined a.user_id (joined a.artifact_type (append a.artifact_id ".json"))))
      ≡ a.project_id ∷ a.user_id ∷ a.artifact_type ∷ append a.artifact_id ".json" ∷ []
unfolding all_codes
path_parts a (p, u, k, i) =
    let file = append a.artifact_id ".json" in
    let kinds = joined a.artifact_type file in
    split_at-joined a.project_id (joined a.user_id kinds) (is_safe-slashless a.project_id p)
    ∙ (λ j. a.project_id ∷ split_at-joined a.user_id kinds (is_safe-slashless a.user_id u) j)
    ∙ (λ j.
        a.project_id
        ∷ a.user_id
        ∷ split_at-joined a.artifact_type file (is_safe-slashless a.artifact_type k) j)
    ∙ (λ j.
        a.project_id
        ∷ a.user_id
        ∷ a.artifact_type
        ∷ split_at-slashless file
            (all_codes-append (λ c. not (c == slash)) a.artifact_id ".json"
              (is_safe-slashless a.artifact_id i) refl)
            j)

abbrev head : List String → String
head [] = ""
head (s ∷ ss) = s

abbrev rest : List String → List String
rest [] = []
rest (s ∷ ss) = ss

pub path_injective :
    (root : String) (a b : ScopedArtifactRef)
    → AllSafe a
    → AllSafe b
    → path_text root a ≡ path_text root b
    → a ≡ b
path_injective root a b s t h =
    let below = append_cancel root _ _ h in
    let same =
      sym (path_parts a s) ∙ ap (split_at slash) (append_cancel "/" _ _ below) ∙ path_parts b t in
    let file =
      append_cancel_right a.artifact_id b.artifact_id ".json"
        (ap (λ l. head (rest (rest (rest l)))) same) in
    λ j. record {
      artifact_type = head (rest (rest (same j)));
      artifact_id = file j;
      user_id = head (rest (same j));
      project_id = head (same j);
    }

scope_of_parts-AllSafe :
    (l : List String) (x : ScopedArtifactRef) → scope_of_parts l ≡ ok x → AllSafe x
unfolding scope_of_parts
scope_of_parts-AllSafe [] x h = cc
scope_of_parts-AllSafe (a ∷ []) x h = cc
scope_of_parts-AllSafe (a ∷ b ∷ []) x h = cc
scope_of_parts-AllSafe (a ∷ b ∷ c ∷ []) x h = cc
scope_of_parts-AllSafe (a ∷ b ∷ c ∷ d ∷ []) x h = cc
scope_of_parts-AllSafe (a ∷ b ∷ c ∷ d ∷ e ∷ []) x h = cc
scope_of_parts-AllSafe (a ∷ b ∷ c ∷ d ∷ e ∷ f ∷ []) x h = cc
scope_of_parts-AllSafe (a ∷ b ∷ c ∷ d ∷ e ∷ f ∷ g ∷ k ∷ l) x h = cc
scope_of_parts-AllSafe (a ∷ b ∷ c ∷ project ∷ user ∷ kind ∷ id ∷ []) x h =
    let (_, r0) = passed (not (joined a (joined b c) == artifact_prefix)) invalid_ref _ h in
    let (k, e1, r1) = >>=-eq-ok (safe_identifier kind) _ r0 in
    let (i, e2, r2) = >>=-eq-ok (safe_identifier id) _ r1 in
    let (u, e3, r3) = >>=-eq-ok (safe_identifier user) _ r2 in
    let (p, e4, r4) = >>=-eq-ok (safe_identifier project) _ r3 in
    let (s1, t1) = safe_identifier-eq-ok kind k e1 in
    let (s2, t2) = safe_identifier-eq-ok id i e2 in
    let (s3, t3) = safe_identifier-eq-ok user u e3 in
    let (s4, t4) = safe_identifier-eq-ok project p e4 in
    (cc (r4, t4, s4), cc (r4, t3, s3), cc (r4, t1, s1), cc (r4, t2, s2))

pub scoped_ref-AllSafe :
    (artifact_ref : String) (x : ScopedArtifactRef) → scoped_ref artifact_ref ≡ ok x → AllSafe x
unfolding scoped_ref
scoped_ref-AllSafe artifact_ref x h = scope_of_parts-AllSafe (split_at slash artifact_ref) x h
