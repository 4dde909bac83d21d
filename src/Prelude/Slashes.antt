-- ===== src/Prelude/Slashes.antt =====
-- Texts joined by slashes: `s.split("/")` gives back the parts that hold no slash.
use Prim.Native.Nat.{ℕ, ◌+◌}
use Prim.Native.Char.{Char, code}
use Prim.Native.String.{String, char_at}
use Prim.Native.String.append.{nil, cons}
use mathlib.Core.Path.{◌≡◌, refl, sym, ap, ◌∙◌}
use mathlib.Core.Bool.{Bool, true, not}
use mathlib.Core.List.{List, [], ◌∷◌}
use native.Mathlib.Omega.{arith}
use nautilus_builder.Prelude.Tests.{◌==◌, nat_eq}
use nautilus_builder.Prelude.Text.{append, split_at, all_codes, characters}

abbrev pub slash : ℕ
slash = 47

-- The text holds no slash.
abbrev pub slashless : String → Bool
slashless = all_codes (λ c. not (c == slash))

-- `a + "/" + b`
abbrev pub joined : String → String → String
joined a b = append a (append "/" b)

split_at-append_cons :
    (c : Char) (s : String) (t : String) (ts : List String)
    → not (code c == slash) ≡ true
    → split_at slash s ≡ t ∷ ts
    → split_at slash (String.◌∷◌ c s) ≡ String.◌∷◌ c t ∷ ts
unfolding split_at
split_at-append_cons c s t ts h e = rw (e, split_at) (ground arith)

pub split_at-joined :
    (a b : String) → slashless a ≡ true → split_at slash (joined a b) ≡ a ∷ split_at slash b
unfolding all_codes split_at
split_at-joined String.[] b h =
    ap (split_at slash) (nil (append "/" b))
    ∙ ap (split_at slash) (cons (char_at "/" 0) String.[] b)
    ∙ ap (λ (t : String). String.[] ∷ split_at slash t) (nil b)
split_at-joined (String.◌∷◌ c a) b h =
    ap (split_at slash) (cons c a (append "/" b))
    ∙ split_at-append_cons c (joined a b) a (split_at slash b) (ground arith)
        (split_at-joined a b (ground arith))

pub split_at-slashless : (a : String) → slashless a ≡ true → split_at slash a ≡ a ∷ []
unfolding all_codes split_at
split_at-slashless String.[] h = refl
split_at-slashless (String.◌∷◌ c a) h =
    split_at-append_cons c a a [] (ground arith) (split_at-slashless a (ground arith))

pub all_codes-append :
    (p : ℕ → Bool) (s t : String)
    → all_codes p s ≡ true
    → all_codes p t ≡ true
    → all_codes p (append s t) ≡ true
unfolding all_codes
all_codes-append p String.[] t h k = ap (all_codes p) (nil t) ∙ k
all_codes-append p (String.◌∷◌ c s) t h k =
    ap (all_codes p) (cons c s t) ∙ ground (arith, all_codes-append p s t)

pub append_assoc : (s t u : String) → append (append s t) u ≡ append s (append t u)
append_assoc String.[] t u = ap (λ x. append x u) (nil t) ∙ sym (nil (append t u))
append_assoc (String.◌∷◌ c s) t u =
    ap (λ x. append x u) (cons c s t)
    ∙ cons c (append s t) u
    ∙ ap (String.◌∷◌ c) (append_assoc s t u)
    ∙ sym (cons c s (append t u))

pub joined_assoc : (a b c : String) → joined (joined a b) c ≡ joined a (joined b c)
joined_assoc a b c =
    append_assoc a (append "/" b) (append "/" c) ∙ ap (append a) (append_assoc "/" b (append "/" c))

characters-append : (s t : String) → characters (append s t) ≡ characters s + characters t
unfolding characters
characters-append String.[] t = ap characters (nil t) ∙ omega arith
characters-append (String.◌∷◌ c s) t =
    ap characters (cons c s t) ∙ omega (arith, characters-append s t)

first : Char → String → Char
first d String.[] = d
first d (String.◌∷◌ c s) = c

rest : String → String
rest String.[] = String.[]
rest (String.◌∷◌ c s) = s

-- What stands before a text is determined by the whole.
pub append_cancel_right : (s t u : String) → append s u ≡ append t u → s ≡ t
unfolding characters first rest
append_cancel_right String.[] String.[] u h = refl
append_cancel_right String.[] (String.◌∷◌ c t) u h = absurd (
    omega
      (arith, ap characters h, characters-append String.[] u, characters-append (String.◌∷◌ c t) u))
append_cancel_right (String.◌∷◌ c s) String.[] u h = absurd (
    omega
      (arith, ap characters h, characters-append String.[] u, characters-append (String.◌∷◌ c s) u))
append_cancel_right (String.◌∷◌ c s) (String.◌∷◌ d t) u h =
    let same : String.◌∷◌ c (append s u) ≡ String.◌∷◌ d (append t u) =
      sym (cons c s u) ∙ h ∙ cons d t u in
    let heads : c ≡ d = ap (first c) same in
    let tails = append_cancel_right s t u (ap rest same) in λ i. String.◌∷◌ (heads i) (tails i)

pub all_codes_mono :
    (p q : ℕ → Bool) (s : String)
    → ((c : ℕ) → p c ≡ true → q c ≡ true)
    → all_codes p s ≡ true
    → all_codes q s ≡ true
unfolding all_codes
all_codes_mono p q String.[] f h = refl
all_codes_mono p q (String.◌∷◌ c s) f h = ground (arith, f (code c), all_codes_mono p q s f)
