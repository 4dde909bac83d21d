-- ===== src/Prelude/Text.antt =====
-- Python's text methods that the program calls: `strip`, `lower` and the truth of a text.
pub use text.Mathlib.Text.{starts_with}
use Prim.Native.Nat.{ℕ, zero, suc, ◌+◌, ◌-◌, ◌/◌, ◌%◌}
use Prim.Native.Char.{code}
use Prim.Native.String
use Prim.Native.String.append.{nil, cons}
use mathlib.Core.Path.{◌≡◌, ◌∙◌, sym, ap}
use Prim.Native.Nat.{Ordering}
use Prim.Native.String.{String, compare}
use mathlib.Core.Bool.{Bool, true, false, not, ◌&&◌, ◌||◌}
use mathlib.Core.Option.{Option, none, some}
use mathlib.Core.List.{List, [], ◌∷◌, ◌++◌}
use nautilus_builder.Prelude.Tests.{ltb, leb, ◌==◌, nat_eq, string_eq, if◌then◌else◌}

-- `str.isspace` of one code point, which is what `str.strip` removes.
unfoldable pub is_space : ℕ → Bool
is_space c =
    (leb 9 c && leb c 13)
    || (leb 28 c && leb c 32)
    || c == 0x85
    || c == 0xa0
    || c == 0x1680
    || (leb 0x2000 c && leb c 0x200a)
    || c == 0x2028
    || c == 0x2029
    || c == 0x202f
    || c == 0x205f
    || c == 0x3000

unfoldable pub lstrip : String → String
unfolding is_space
lstrip String.[] = String.[]
lstrip (String.◌∷◌ c s) = let rest = lstrip s in if is_space (code c) then rest else String.◌∷◌ c s

unfoldable pub rstrip : String → String
unfolding is_space
rstrip String.[] = String.[]
rstrip (String.◌∷◌ c s) =
    let rest = rstrip s in if is_space (code c) && rest == "" then String.[] else String.◌∷◌ c rest

unfoldable pub strip : String → String
unfolding lstrip rstrip
strip s = rstrip (lstrip s)

-- `bool(s)`: every text but the empty one is true.
abbrev pub truthy : String → Bool
truthy s = not (s == "")

-- `bool(s)` of a `str | None`.
abbrev pub given : Option String → Bool
given none = false
given (some s) = truthy s

-- Of the letters outside ASCII, the lower case of the Kelvin sign is in ASCII, and that of a capital i
-- with a dot begins in ASCII.
abbrev lower_code : ℕ → List ℕ
lower_code c =
    if leb 65 c && leb c 90
    then (c + 32) ∷ []
    else if c == 0x212a
    then 107 ∷ []
    else if c == 0x130
    then 105 ∷ 0x307 ∷ []
    else c ∷ []

-- The code points of `s.lower()`, exact wherever they are compared with an ASCII text.
unfoldable pub lower : String → List ℕ
lower String.[] = []
lower (String.◌∷◌ c s) = lower_code (code c) ++ lower s

unfoldable pub same_codes : List ℕ → List ℕ → Bool
same_codes [] [] = true
same_codes (a ∷ r) (b ∷ t) = a == b && same_codes r t
same_codes _ _ = false

-- `s.lower() == t` for an ASCII text `t` in lower case.
unfoldable pub lower_is : String → String → Bool
unfolding lower same_codes
lower_is s t = same_codes (lower s) (lower t)

-- `s.lower() in ts`
unfoldable pub lower_in : String → List String → Bool
unfolding lower_is
lower_in s [] = false
lower_in s (t ∷ ts) = lower_is s t || lower_in s ts

-- `s[:n]`
unfoldable pub prefix : ℕ → String → String
prefix zero s = String.[]
prefix (suc n) String.[] = String.[]
prefix (suc n) (String.◌∷◌ c s) = String.◌∷◌ c (prefix n s)

abbrev pub digit : ℕ → String
digit n =
    if n == 0
    then "0"
    else if n == 1
    then "1"
    else if n == 2
    then "2"
    else if n == 3
    then "3"
    else if n == 4
    then "4"
    else if n == 5
    then "5"
    else if n == 6
    then "6"
    else if n == 7
    then "7"
    else if n == 8
    then "8"
    else "9"

unfoldable pub decimal_from : ℕ → ℕ → String
decimal_from zero n = String.[]
decimal_from (suc fuel) n =
    let front = decimal_from fuel (n / 10) in
    if ltb n 10 then digit n else String.◌++◌ front (digit (n % 10))

-- `str(n)` of a number: `n + 1` rounds are enough, since each takes a digit off.
unfoldable pub decimal : ℕ → String
unfolding decimal_from
decimal n = decimal_from (suc n) n

-- `len(s)`
unfoldable pub characters : String → ℕ
characters String.[] = 0
characters (String.◌∷◌ c s) = suc (characters s)

unfoldable pub zeros : ℕ → String → String
zeros zero s = s
zeros (suc n) s = String.◌++◌ "0" (zeros n s)

-- `f"{n:0wd}"` for a width `w`
unfoldable pub padded : ℕ → ℕ → String
unfolding zeros
padded w n = let digits = decimal n in zeros (w - characters digits) digits

-- Every code point of the text passes: `fullmatch` of a class of characters, repeated.
unfoldable pub all_codes : (ℕ → Bool) → String → Bool
all_codes p String.[] = true
all_codes p (String.◌∷◌ c s) = p (code c) && all_codes p s

-- `s.split(c)` for the separator whose code point is `c`
unfoldable pub split_at : ℕ → String → List String
split_at c String.[] = String.[] ∷ []
split_at c (String.◌∷◌ d s) =
    let rest = split_at c s in
    if code d == c then String.[] ∷ rest else elim rest [ [] ↦ [] | t ∷ ts ↦ String.◌∷◌ d t ∷ ts ]

-- `s + t`
abbrev pub append : String → String → String
append s t = String.◌++◌ s t

-- `s <= t`
abbrev pub at_most : String → String → Bool
at_most s t = elim (compare s t) [ Ordering.gt ↦ false | _ ↦ true ]

tail : String → String
tail String.[] = String.[]
tail (String.◌∷◌ c s) = s

-- What follows a text is determined by the whole.
pub append_cancel : (s t u : String) → append s t ≡ append s u → t ≡ u
unfolding tail
append_cancel String.[] t u h = sym (nil t) ∙ h ∙ nil u
append_cancel (String.◌∷◌ c s) t u h =
    append_cancel s t u (ap tail (sym (cons c s t) ∙ h ∙ cons c s u))
