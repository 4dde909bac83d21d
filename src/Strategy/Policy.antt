-- ===== src/Strategy/Policy.antt =====
-- The texts that packages/strategy_validation/policy.py forbids, and how validators.py looks for them:
-- in every key and value of a payload, in lower case, as lists of code points.
use nautilus_builder.Prelude.{
  ℕ, Bool, true, false, not, ◌&&◌, ◌||◌, String, List, [], ◌∷◌, ◌++◌, ◌==◌, nat_eq, leb, any,
  if◌then◌else◌,
}
use nautilus_builder.Prelude.Text.{lower, append}
use nautilus_builder.Json.{
  Value, Items, Fields, Payload, null, bool, number, text, arr, obj, no_items, item, no_fields,
  member,
}

-- `FORBIDDEN_REFERENCES`: what is looked for, and the name that is shown.
abbrev pub forbidden_references : List (String × String)
forbidden_references =
    ("submit_order", "submit_order")
    ∷ ("modify_order", "modify_order")
    ∷ ("cancel_order", "cancel_order")
    ∷ ("close_position", "close_position")
    ∷ ("set_leverage", "set_leverage")
    ∷ ("place_order", "place_order")
    ∷ ("broker_order", "broker_order")
    ∷ ("exchange_order", "exchange_order")
    ∷ ("api_key", "api_key")
    ∷ ("secret_key", "secret_key")
    ∷ ("credential", "credential")
    ∷ ("tradeaction", "TradeAction")
    ∷ []

-- `sorted(_RAW_SUBSTRING_PATTERNS)`
abbrev pub raw_substring_patterns : List String
raw_substring_patterns = "__import__" ∷ "open(" ∷ "os." ∷ "sys." ∷ []

-- `sorted(_RAW_WORD_PATTERNS)`
abbrev pub raw_word_patterns : List String
raw_word_patterns = "eval" ∷ "exec" ∷ "import" ∷ "requests" ∷ "socket" ∷ "subprocess" ∷ []

-- `_walk_strings`
unfoldable mutual
  pub walk_value : Value → List String
  walk_value null = []
  walk_value (bool _) = []
  walk_value (number _) = []
  walk_value (text s) = s ∷ []
  walk_value (arr items) = walk_items items
  walk_value (obj fields) = walk_fields fields

  pub walk_items : Items → List String
  walk_items no_items = []
  walk_items (item v items) = walk_value v ++ walk_items items

  pub walk_fields : Fields → List String
  walk_fields no_fields = []
  walk_fields (member key v fields) = key ∷ (walk_value v ++ walk_fields fields)

-- The same at the payload itself.
unfoldable pub walk_strings : Payload → List String
unfolding walk_value
walk_strings [] = []
walk_strings ((key, v) ∷ d) = key ∷ (walk_value v ++ walk_strings d)

-- The text begins with the pattern, and what stands behind it begins with no code that `stops`
-- refuses.
unfoldable pub matches_here : (ℕ → Bool) → List ℕ → List ℕ → Bool
matches_here stops [] [] = true
matches_here stops [] (c ∷ cs) = not (stops c)
matches_here stops (p ∷ ps) [] = false
matches_here stops (p ∷ ps) (c ∷ cs) = p == c && matches_here stops ps cs

abbrev pub nothing : ℕ → Bool
nothing c = false

-- `pattern in value`
unfoldable pub contains : List ℕ → List ℕ → Bool
unfolding matches_here
contains pattern [] = matches_here nothing pattern []
contains pattern (c ∷ cs) = matches_here nothing pattern (c ∷ cs) || contains pattern cs

-- `[a-z0-9_]`
unfoldable pub is_word : ℕ → Bool
is_word c = (leb 97 c && leb c 122) || (leb 48 c && leb c 57) || c == 95

-- The search for `(?<![a-z0-9_])pattern(?![a-z0-9_])`; the flag tells whether a word code stands before.
unfoldable pub contains_word : Bool → List ℕ → List ℕ → Bool
unfolding matches_here is_word
contains_word inside pattern [] = not inside && matches_here is_word pattern []
contains_word inside pattern (c ∷ cs) =
    (not inside && matches_here is_word pattern (c ∷ cs)) || contains_word (is_word c) pattern cs

-- One message for each entry that occurs in some of the texts.
unfoldable pub reference_errors : List (String × String) → List String → List String
unfolding contains lower
reference_errors [] values = []
reference_errors ((forbidden, shown) ∷ entries) values =
    let rest = reference_errors entries values in
    if any (λ v. contains (lower forbidden) (lower v)) values
    then append "forbidden execution reference detected: " shown ∷ rest
    else rest

unfoldable pub pattern_errors : List String → List String → List String
unfolding contains lower
pattern_errors [] values = []
pattern_errors (pattern ∷ patterns) values =
    let rest = pattern_errors patterns values in
    if any (λ v. contains (lower pattern) (lower v)) values
    then append "raw code pattern detected: " pattern ∷ rest
    else rest

unfoldable pub word_errors : List String → List String → List String
unfolding contains_word lower
word_errors [] values = []
word_errors (pattern ∷ patterns) values =
    let rest = word_errors patterns values in
    if any (λ v. contains_word false (lower pattern) (lower v)) values
    then append "raw code pattern detected: " pattern ∷ rest
    else rest
