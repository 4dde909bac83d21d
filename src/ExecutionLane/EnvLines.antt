-- ===== src/ExecutionLane/EnvLines.antt =====
-- One line of the environment file of packages/execution_lane/credentials.py, written and read back.
use Prim.Native.Char.{Char, code}
use Prim.Native.String.{char_at}
use Prim.Native.String.append.{nil, cons}
use nautilus_builder.Prelude.{
  ℕ, Bool, true, false, not, some, String, List, ◌∷◌, ◌==◌, string_eq, nat_eq, ◌≡◌, refl, sym, ap,
  ◌∙◌, arith, eq_iff, Bool-cases, inl, inr,
}
use nautilus_builder.Prelude.Text.{append, is_space, lstrip, rstrip, strip, all_codes, characters}
use nautilus_builder.Prelude.Slashes.{all_codes_mono, all_codes-append}
use nautilus_builder.ExecutionLane.EnvFile.{
  upper_of, upper, is_break, begins, splitlines, cut, entry_of, parse_line, is_key_code,
  begins_upper, is_env_key, line_of,
}

abbrev pub unbroken : String → Bool
unbroken = all_codes (λ c. not (is_break c))

-- A value that the file keeps: no space at either end, and no line break.
abbrev pub IsTidy : String → Type 0
IsTidy v = (lstrip v ≡ v) × (rstrip v ≡ v) × (unbroken v ≡ true)

-- A text with a character put in front.
abbrev one : Char → String → String
one c s = String.◌∷◌ c s

splitlines_cons :
    (c : Char) (s : String) (line : String) (lines : List String)
    → not (is_break (code c)) ≡ true
    → splitlines s ≡ line ∷ lines
    → splitlines (one c s) ≡ one c line ∷ lines
unfolding splitlines
splitlines_cons c s line lines h e = rw (e, splitlines) (rw (h, splitlines) refl)

pub splitlines-append :
    (x rest : String)
    → unbroken x ≡ true
    → splitlines (append x (append "\n" rest)) ≡ x ∷ splitlines rest
unfolding all_codes splitlines
splitlines-append String.[] rest h =
    ap splitlines (nil (append "\n" rest))
    ∙ ap splitlines (cons (char_at "\n" 0) String.[] rest)
    ∙ ap (λ (t : String). String.[] ∷ splitlines t) (nil rest)
splitlines-append (String.◌∷◌ c x) rest h =
    ap splitlines (cons c x (append "\n" rest))
    ∙ splitlines_cons c (append x (append "\n" rest)) x (splitlines rest) (ground arith)
        (splitlines-append x rest (ground arith))

lstrip_cons : (c : Char) (s : String) → is_space (code c) ≡ false → lstrip (one c s) ≡ one c s
unfolding lstrip
lstrip_cons c s h = rw (h, lstrip) refl

cons_nonempty : (c : Char) (s : String) → (one c s == "") ≡ false
unfolding characters
cons_nonempty c s = elim (Bool-cases (one c s == "")) [
  | inl empty ↦ absurd (omega (arith, ap characters ((eq_iff (one c s) "").0 empty)))
  | inr full ↦ full
]

append_nonempty : (s t : String) → (t == "") ≡ false → (append s t == "") ≡ false
append_nonempty String.[] t h = ap (λ x. x == "") (nil t) ∙ h
append_nonempty (String.◌∷◌ c s) t h = ap (λ x. x == "") (cons c s t) ∙ cons_nonempty c (append s t)

rstrip_cons :
    (c : Char) (s : String) → rstrip s ≡ s → (s == "") ≡ false → rstrip (one c s) ≡ one c s
unfolding rstrip
rstrip_cons c s h full = rw (h, rstrip) (rw (full, rstrip) (ground arith))

-- What ends in no space has none to take off at the right.
rstrip-append : (s t : String) → rstrip t ≡ t → (t == "") ≡ false → rstrip (append s t) ≡ append s t
rstrip-append String.[] t h full = ap rstrip (nil t) ∙ h ∙ sym (nil t)
rstrip-append (String.◌∷◌ c s) t h full =
    ap rstrip (cons c s t)
    ∙ rstrip_cons c (append s t) (rstrip-append s t h full) (append_nonempty s t full)
    ∙ sym (cons c s t)

-- The equals sign and a value: the sign is no space, whatever the value.
rstrip_equals : (v : String) → rstrip v ≡ v → rstrip (append "=" v) ≡ append "=" v
unfolding rstrip
rstrip_equals v h =
    ap rstrip (cons (char_at "=" 0) String.[] v ∙ ap (one (char_at "=" 0)) (nil v))
    ∙ ap (one (char_at "=" 0)) h
    ∙ sym (cons (char_at "=" 0) String.[] v ∙ ap (one (char_at "=" 0)) (nil v))

key_code_no_space : (c : ℕ) → is_key_code c ≡ true → not (is_space c) ≡ true
unfolding is_key_code is_space
key_code_no_space c h = ground arith

key_code_no_equals : (c : ℕ) → is_key_code c ≡ true → not (c == 61) ≡ true
unfolding is_key_code
key_code_no_equals c h = ground arith

key_code_unbroken : (c : ℕ) → is_key_code c ≡ true → not (is_break c) ≡ true
unfolding is_key_code is_break
key_code_unbroken c h = ground arith

spaceless_strip : (s : String) → all_codes (λ c. not (is_space c)) s ≡ true → rstrip s ≡ s
unfolding all_codes rstrip
spaceless_strip String.[] h = refl
spaceless_strip (String.◌∷◌ c s) h =
    let no_space : is_space (code c) ≡ false = ground arith in
    rw (no_space, rstrip) (ap (one c) (spaceless_strip s (ground arith)))

upper_of_key : (c : Char) → is_key_code (code c) ≡ true → upper_of c ≡ one c String.[]
unfolding upper_of is_key_code
upper_of_key c h = ground arith

upper_key : (s : String) → all_codes is_key_code s ≡ true → upper s ≡ s
unfolding all_codes upper
upper_key String.[] h = refl
upper_key (String.◌∷◌ c s) h =
    let first : is_key_code (code c) ≡ true = ground arith in
    let rest : all_codes is_key_code s ≡ true = ground arith in
    (λ i. append (upper_of_key c first i) (upper_key s rest i))
    ∙ cons c String.[] s
    ∙ ap (one c) (nil s)

cut_cons :
    (c : Char) (s k v : String)
    → (code c == 61) ≡ false
    → cut s ≡ some (k, v)
    → cut (one c s) ≡ some (one c k, v)
unfolding cut
cut_cons c s k v h e = rw (e, cut) (rw (h, cut) refl)

cut-append :
    (k v : String) → all_codes is_key_code k ≡ true → cut (append k (append "=" v)) ≡ some (k, v)
unfolding all_codes cut
cut-append String.[] v h =
    ap cut (nil (append "=" v))
    ∙ ap cut (cons (char_at "=" 0) String.[] v)
    ∙ ap (λ (t : String). some (String.[], t)) (nil v)
cut-append (String.◌∷◌ c k) v h =
    let first : not (code c == 61) ≡ true = key_code_no_equals (code c) (ground arith) in
    ap cut (cons c k (append "=" v))
    ∙ cut_cons c (append k (append "=" v)) k v (ground arith) (cut-append k v (ground arith))

key_parts :
    (k : String) → is_env_key k ≡ true → (begins_upper k ≡ true) × (all_codes is_key_code k ≡ true)
unfolding is_env_key
key_parts k key = (ground arith, ground arith)

pub lstrip_begins : (k t : String) → begins_upper k ≡ true → lstrip (append k t) ≡ append k t
unfolding begins_upper is_space
lstrip_begins String.[] t h = cc
lstrip_begins (String.◌∷◌ c k) t h =
    ap lstrip (cons c k t) ∙ lstrip_cons c (append k t) (ground arith) ∙ sym (cons c k t)

lstrip_key : (k : String) → begins_upper k ≡ true → lstrip k ≡ k
unfolding begins_upper is_space lstrip
lstrip_key String.[] h = refl
lstrip_key (String.◌∷◌ c k) h = lstrip_cons c k (ground arith)

begins_no_hash : (k t : String) → begins_upper k ≡ true → begins 35 (append k t) ≡ false
unfolding begins_upper begins
begins_no_hash String.[] t h = cc
begins_no_hash (String.◌∷◌ c k) t h = ap (begins 35) (cons c k t) ∙ ground arith

key_nonempty : (k : String) → begins_upper k ≡ true → (k == "") ≡ false
unfolding begins_upper
key_nonempty String.[] h = cc
key_nonempty (String.◌∷◌ c k) h = cons_nonempty c k

-- A line that was written for a key and a tidy value has no break, and reads back as the two.
module _ (k v : String) (key : is_env_key k ≡ true) (tidy : IsTidy v) where
  pub line_unbroken : unbroken (line_of (k, v)) ≡ true
  unfolding all_codes is_break
  line_unbroken =
      let no_break = λ (c : ℕ). not (is_break c) in
      all_codes-append no_break k (append "=" v)
        (all_codes_mono is_key_code no_break k key_code_unbroken (key_parts k key).1)
        (all_codes-append no_break "=" v refl tidy.2)

  equals_nonempty : (append "=" v == "") ≡ false
  equals_nonempty =
      ap (λ x. x == "") (cons (char_at "=" 0) String.[] v)
      ∙ cons_nonempty (char_at "=" 0) (append String.[] v)

  strip_key : strip k ≡ k
  unfolding strip
  strip_key =
      ap rstrip (lstrip_key k (key_parts k key).0)
      ∙ spaceless_strip k (
          all_codes_mono is_key_code (λ c. not (is_space c)) k key_code_no_space
            (key_parts k key).1)

  strip_value : strip v ≡ v
  unfolding strip
  strip_value = ap rstrip tidy.0 ∙ tidy.1

  entry_of_own : entry_of (k, v) ≡ some (k, v)
  entry_of_own =
      rw (strip_key, strip_value)
        (rw (upper_key k (key_parts k key).1) (rw (key_nonempty k (key_parts k key).0) refl))

  line_strip : strip (line_of (k, v)) ≡ line_of (k, v)
  unfolding strip
  line_strip =
      ap rstrip (lstrip_begins k (append "=" v) (key_parts k key).0)
      ∙ rstrip-append k (append "=" v) (rstrip_equals v tidy.1) equals_nonempty

  pub parse_line-line_of : parse_line (line_of (k, v)) ≡ some (k, v)
  unfolding parse_line
  parse_line-line_of =
      let full = append_nonempty k (append "=" v) equals_nonempty in
      rw (line_strip, parse_line)
        (rw (full, parse_line)
          (rw (begins_no_hash k (append "=" v) (key_parts k key).0, parse_line)
            (rw (cut-append k v (key_parts k key).1, parse_line) entry_of_own)))
