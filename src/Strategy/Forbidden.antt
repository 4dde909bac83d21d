-- ===== src/Strategy/Forbidden.antt =====
-- What a payload that packages/strategy_validation accepts cannot hold.
use nautilus_builder.Prelude.{
  ◌<◌, Bool, true, false, Option, none, some, String, List, [], ◌∷◌, ◌++◌, ok, err, string_eq, any,
  All, ◌≡◌, ◌≢◌, refl, sym, ap, ◌∙◌, arith, Bool-cases, Result-cases, inl, inr,
}
use nautilus_builder.Prelude.Text.{lower}
use nautilus_builder.Prelude.Dict.{get}
use nautilus_builder.Json.{Payload}
use nautilus_builder.Strategy.Spec.{StrategySpec, >>=-some}
use mathlib.Core.Option.{some-injective}
use nautilus_builder.Strategy.Policy.{
  forbidden_references, raw_substring_patterns, raw_word_patterns, walk_strings, contains,
  contains_word, reference_errors, pattern_errors, word_errors,
}
use nautilus_builder.Strategy.Validator.{
  Datetime, Reading, same_bool, validation_fields, report_of, rule_reference_errors, date_errors,
  order_errors, data_range_errors, flag_errors, spec_errors, risk_error, all_errors, deduped,
  ValidationReport, validate_strategy_spec,
}

-- None of the texts passes the test.
abbrev pub NoneOf : (String → Bool) → List String → Type 0
NoneOf p = All (λ v. p v ≡ false)

any-NoneOf : (p : String → Bool) (vs : List String) → any p vs ≡ false → NoneOf p vs
any-NoneOf p [] h = tt
any-NoneOf p (v ∷ vs) h = (ground arith, any-NoneOf p vs (ground arith))

pub append-nil_parts {ℓ} : {A : Type ℓ} (xs ys : List A) → xs ++ ys ≡ [] → (xs ≡ []) × (ys ≡ [])
append-nil_parts [] ys h = (refl, h)
append-nil_parts (x ∷ xs) ys h = cc

-- No entry of a table occurs in the texts.
abbrev pub Absent : List String → List String → Type 0
Absent patterns values = All (λ p. NoneOf (λ v. contains (lower p) (lower v)) values) patterns

abbrev pub WordsAbsent : List String → List String → Type 0
WordsAbsent patterns values =
    All (λ p. NoneOf (λ v. contains_word false (lower p) (lower v)) values) patterns

abbrev pub ReferencesAbsent : List (String × String) → List String → Type 0
ReferencesAbsent entries values =
    All (λ (e : String × String). NoneOf (λ v. contains (lower e.0) (lower v)) values) entries

reference_errors-nil :
    (entries : List (String × String)) (values : List String)
    → reference_errors entries values ≡ []
    → ReferencesAbsent entries values
unfolding reference_errors
reference_errors-nil [] values h = tt
reference_errors-nil ((f, shown) ∷ entries) values h =
    elim (Bool-cases (any (λ v. contains (lower f) (lower v)) values)) [
      | inl found ↦ cc (rw (found, reference_errors) at h)
      | inr absent ↦ (
        any-NoneOf _ values absent,
        reference_errors-nil entries values (rw (absent, reference_errors) at h),
      )
    ]

pattern_errors-nil :
    (patterns values : List String) → pattern_errors patterns values ≡ [] → Absent patterns values
unfolding pattern_errors
pattern_errors-nil [] values h = tt
pattern_errors-nil (p ∷ patterns) values h =
    elim (Bool-cases (any (λ v. contains (lower p) (lower v)) values)) [
      | inl found ↦ cc (rw (found, pattern_errors) at h)
      | inr absent ↦ (
        any-NoneOf _ values absent,
        pattern_errors-nil patterns values (rw (absent, pattern_errors) at h),
      )
    ]

word_errors-nil :
    (patterns values : List String) → word_errors patterns values ≡ [] → WordsAbsent patterns values
unfolding word_errors
word_errors-nil [] values h = tt
word_errors-nil (p ∷ patterns) values h =
    elim (Bool-cases (any (λ v. contains_word false (lower p) (lower v)) values)) [
      | inl found ↦ cc (rw (found, word_errors) at h)
      | inr absent ↦ (
        any-NoneOf _ values absent,
        word_errors-nil patterns values (rw (absent, word_errors) at h),
      )
    ]

empty_of : (es : List String) → (elim es [ [] ↦ true | _ ∷ _ ↦ false ]) ≡ true → es ≡ []
empty_of [] h = refl
empty_of (e ∷ es) h = cc

-- Both times have an offset or none has, and the first is earlier.
abbrev pub IsBefore : Datetime → Datetime → Type 0
IsBefore s e = (s.has_offset ≡ e.has_offset) × (s.moment < e.moment)

same_bool_eq : (a b : Bool) → same_bool a b ≡ true → a ≡ b
same_bool_eq true b h = sym h
same_bool_eq false true h = cc
same_bool_eq false false h = refl

order_errors-nil :
    (o p : Option Datetime)
    → date_errors "data_range.start" o ≡ []
    → date_errors "data_range.end" p ≡ []
    → order_errors o p ≡ some []
    → (s : Datetime) × (e : Datetime) × (o ≡ some s) × (p ≡ some e) × IsBefore s e
order_errors-nil none p a b c = cc
order_errors-nil (some s) none a b c = cc
order_errors-nil (some s) (some e) a b c =
    (s, e, refl, refl, ground (arith, same_bool_eq s.has_offset e.has_offset))

-- What is relied on of pydantic: a ValidationError holds a message.
abbrev pub HasMessages : {F : Type 0} → Reading F → Type 0
HasMessages reading = (p : Payload) → reading.model_validate p ≢ err []

module _ {F : Type 0} (reading : Reading F) (payload : Payload) where
  deduped-nil : (es : List String) → deduped reading [] es ≡ [] → es ≡ []
  unfolding deduped
  deduped-nil [] h = refl
  deduped-nil (e ∷ es) h = cc

  -- The specification that was read, in its data range and its rules.
  abbrev pub IsUsable : StrategySpec F → Type 0
  IsUsable spec =
      (reading.model_validate payload ≡ ok spec)
      × (s : Datetime) × (e : Datetime) × (reading.fromisoformat spec.data_range.start ≡ some s)
      × (reading.fromisoformat spec.data_range.end ≡ some e)
      × IsBefore s e
      × (rule_reference_errors spec ≡ [])

  usable :
      HasMessages reading
      → spec_errors reading (reading.model_validate payload) ≡ some []
      → (spec : StrategySpec F) × IsUsable spec
  unfolding spec_errors data_range_errors
  usable messages h = elim (Result-cases (reading.model_validate payload)) [
    | inl (spec, read) ↦
        let start = reading.fromisoformat spec.data_range.start in
        let end = reading.fromisoformat spec.data_range.end in
        let (range, found, all) =
          >>=-some (data_range_errors reading spec.data_range) _ [] (rw (read, spec_errors) at h) in
        let (none_of_range, rules) = append-nil_parts range _ (some-injective _ _ all) in
        let (order, compared, parts) = >>=-some (order_errors start end) _ range found in
        let (a, r) =
          append-nil_parts (date_errors "data_range.start" start) _
            (some-injective _ _ parts ∙ none_of_range) in
        let (b, c) = append-nil_parts (date_errors "data_range.end" end) _ r in
        let (s, e, first, last, before) = order_errors-nil start end a b (compared ∙ ap some c) in
        (spec, (read, s, e, first, last, before, rules))
    | inr (ms, failed) ↦
        absurd
          (messages payload (failed ∙ ap err (some-injective _ _ (rw (failed, spec_errors) at h))))
  ]

  report_of-nil : (es : List String) → (report_of reading es).is_valid ≡ true → es ≡ []
  unfolding report_of
  report_of-nil es h = deduped-nil es (empty_of (deduped reading [] es) h)

  valid-nil :
      (report : ValidationReport reading)
      → validate_strategy_spec reading payload ≡ some report
      → report.is_valid ≡ true
      → all_errors reading payload ≡ some []
  unfolding validate_strategy_spec
  valid-nil report given h =
      let (es, found, same) = >>=-some (all_errors reading payload) _ report given in
      found ∙ ap some (report_of-nil es (ap (λ r. r.is_valid) (some-injective _ _ same) ∙ h))

  -- What the tests of an accepted payload have found.
  pub accepted_parts :
      HasMessages reading
      → (report : ValidationReport reading) → validate_strategy_spec reading payload ≡ some report
      → report.is_valid ≡ true
      → ReferencesAbsent forbidden_references (walk_strings payload)
        × Absent raw_substring_patterns (walk_strings payload)
        × WordsAbsent raw_word_patterns (walk_strings payload)
        × ((spec : StrategySpec F) × IsUsable spec)
  unfolding all_errors
  accepted_parts messages report given h =
      let vs = walk_strings payload in
      let (fields, _, r) =
        >>=-some (validation_fields reading (get "validation" payload)) _ []
          (valid-nil report given h) in
      let (es, validated, all) =
        >>=-some (spec_errors reading (reading.model_validate payload)) _ [] r in
      let (a, r1) =
        append-nil_parts (reference_errors forbidden_references vs) _ (some-injective _ _ all) in
      let (b, r2) = append-nil_parts (pattern_errors raw_substring_patterns vs) _ r1 in
      let (c, r3) = append-nil_parts (word_errors raw_word_patterns vs) _ r2 in
      let (_, r4) = append-nil_parts (risk_error reading (get "risk" payload)) _ r3 in
      let (_, d) = append-nil_parts (flag_errors reading fields) _ r4 in
      (
        reference_errors-nil forbidden_references vs a,
        pattern_errors-nil raw_substring_patterns vs b,
        word_errors-nil raw_word_patterns vs c,
        usable messages (validated ∙ ap some d),
      )
