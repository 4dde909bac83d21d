-- ===== src/ExecutionLane/EnvFile.antt =====
-- The environment file of packages/execution_lane/credentials.py: `_read_env_file` and the text that
-- `_write_env_values` writes. A letter outside ASCII whose upper case is outside ASCII stays as it is.
use Prim.Native.Char.{Char, code}
use Prim.Native.String.{char_at}
use nautilus_builder.Prelude.{
  ℕ, ◌-◌, Bool, false, not, ◌&&◌, ◌||◌, Option, none, some, String, List, [], ◌∷◌, ◌==◌, string_eq,
  nat_eq, leb, if◌then◌else◌,
}
use nautilus_builder.Prelude.Text.{append, strip, all_codes, characters}
use nautilus_builder.Prelude.Sorted.{sorted_by}
use nautilus_builder.Prelude.Dict.{Dict, put}

-- `s.upper()` of one character.
unfoldable pub upper_of : Char → String
upper_of c =
    if leb 97 (code c) && leb (code c) 122
    then String.◌∷◌ (char_at "ABCDEFGHIJKLMNOPQRSTUVWXYZ" (code c - 97)) String.[]
    else if code c == 0xdf
    then "SS"
    else if code c == 0x131
    then "I"
    else if code c == 0x17f
    then "S"
    else if code c == 0xfb00
    then "FF"
    else if code c == 0xfb01
    then "FI"
    else if code c == 0xfb02
    then "FL"
    else if code c == 0xfb03
    then "FFI"
    else if code c == 0xfb04
    then "FFL"
    else if code c == 0xfb05 || code c == 0xfb06
    then "ST"
    else String.◌∷◌ c String.[]

unfoldable pub upper : String → String
unfolding upper_of
upper String.[] = String.[]
upper (String.◌∷◌ c s) = append (upper_of c) (upper s)

-- The line breaks of `str.splitlines`.
unfoldable pub is_break : ℕ → Bool
is_break c =
    (leb 10 c && leb c 13) || (leb 28 c && leb c 30) || c == 0x85 || c == 0x2028 || c == 0x2029

-- `s.startswith(c)` for the character whose code point is `c`
unfoldable pub begins : ℕ → String → Bool
begins c String.[] = false
begins c (String.◌∷◌ d s) = code d == c

abbrev pub onto_first : Char → List String → List String
onto_first c [] = String.◌∷◌ c String.[] ∷ []
onto_first c (line ∷ lines) = String.◌∷◌ c line ∷ lines

-- `s.splitlines()`; a carriage return and the line feed behind it are one break.
unfoldable pub splitlines : String → List String
unfolding is_break begins
splitlines String.[] = []
splitlines (String.◌∷◌ c s) =
    let rest = splitlines s in
    if not (is_break (code c))
    then onto_first c rest
    else if code c == 13 && begins 10 s
    then rest
    else String.[] ∷ rest

-- `s.split("=", 1)`, where there is an equals sign.
unfoldable pub cut : String → Option (String × String)
cut String.[] = none
cut (String.◌∷◌ c s) =
    let rest = cut s in
    if code c == 61
    then some (String.[], s)
    else elim rest [ none ↦ none | some (key, value) ↦ some (String.◌∷◌ c key, value) ]

abbrev pub entry_of : String × String → Option (String × String)
entry_of (key, value) =
    let name = upper (strip key) in if name == "" then none else some (name, strip value)

-- One round of the loop of `_read_env_file`.
unfoldable pub parse_line : String → Option (String × String)
unfolding begins cut upper
parse_line raw_line =
    let line = strip raw_line in
    if line == "" || begins 35 line
    then none
    else elim (cut line) [ none ↦ none | some p ↦ entry_of p ]

unfoldable pub read_lines : List String → Dict String String → Dict String String
read_lines [] values = values
read_lines (line ∷ lines) values =
    read_lines lines
      (elim (parse_line line) [ none ↦ values | some (key, value) ↦ put key value values ])

-- `[A-Z0-9_]`
unfoldable pub is_key_code : ℕ → Bool
is_key_code c = (leb 65 c && leb c 90) || (leb 48 c && leb c 57) || c == 95

unfoldable pub begins_upper : String → Bool
begins_upper String.[] = false
begins_upper (String.◌∷◌ c s) = leb 65 (code c) && leb (code c) 90

-- `_ENV_KEY_RE.match`; the key has been stripped, so that no line feed stands at its end.
unfoldable pub is_env_key : String → Bool
unfolding is_key_code begins_upper
is_env_key key =
    begins_upper key
    && all_codes is_key_code key
    && leb 3 (characters key)
    && leb (characters key) 81

-- `_read_env_file`; `none` is a file that does not exist.
unfoldable pub read_env_file : Option String → Dict String String
unfolding read_lines splitlines
read_env_file none = []
read_env_file (some content) = read_lines (splitlines content) []

-- `f"{key}={value}"`
abbrev pub line_of : String × String → String
line_of (key, value) = append key (append "=" value)

-- `"\n".join(lines)`
unfoldable pub join_lines : Dict String String → String
join_lines [] = ""
join_lines (e ∷ []) = line_of e
join_lines (e ∷ f ∷ d) = append (line_of e) (append "\n" (join_lines (f ∷ d)))

-- `existing.update(values)`
unfoldable pub update : Dict String String → Dict String String → Dict String String
update existing [] = existing
update existing ((key, value) ∷ values) = update (put key value existing) values

abbrev pub key_of : String × String → String
key_of (key, value) = key

-- The text that `_write_env_values` writes over the file.
unfoldable pub write_env_values : Dict String String → Option String → String
unfolding read_env_file update join_lines
write_env_values values file =
    append (join_lines (sorted_by key_of (update (read_env_file file) values))) "\n"
