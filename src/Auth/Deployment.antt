-- ===== src/Auth/Deployment.antt =====
-- What the guards of packages/auth/policy.py leave of the settings outside the local environment.
use nautilus_builder.Prelude.{
  Bool, true, false, not, ◌||◌, ◌&&◌, Option, String, List, [], ◌∷◌, ◌≡◌, ◌==◌, string_eq, any, leb,
  ◌≢◌, All, ◌≤◌, ◌<◌, length,
}
use nautilus_builder.Prelude.Text.{strip, given, lower_is, characters}
use nautilus_builder.Auth.Policy.{
  BuilderEnvironment, local, staging, production, or_empty, unsafe_dev_tokens, min_token_length,
}

abbrev is_local : BuilderEnvironment → Bool
is_local local = true
is_local _ = false

abbrev is_production : BuilderEnvironment → Bool
is_production production = true
is_production _ = false

-- The three guards as one test.
abbrev is_guarded : Option String → Option String → List String → Bool
is_guarded token public_token origins =
    not (or_empty token == "")
    && leb min_token_length (characters (or_empty token))
    && not (any (λ t. t == or_empty token) unsafe_dev_tokens)
    && not (given public_token)
    && not (any (λ o. o == "*") origins)
    && not (elim origins [ [] ↦ true | _ ∷ _ ↦ false ])

abbrev is_limited : Option String → Option String → Bool
is_limited backend redis_url =
    lower_is (strip (or_empty backend)) "redis" && not (strip (or_empty redis_url) == "")

abbrev is_safe :
    BuilderEnvironment
    → Option String
    → Option String
    → List String
    → Option String
    → Option String
    → Bool
is_safe env token public_token origins backend redis_url =
    (is_local env || is_guarded token public_token origins)
    && (not (is_production env) || is_limited backend redis_url)

-- What a deployment outside the local environment holds: a long token that is not known to others, and
-- a list of the origins.
abbrev pub IsGuarded : Option String → Option String → List String → Type 0
IsGuarded token public_token origins =
    (32 ≤ characters (or_empty token))
    × All (λ t. t ≢ or_empty token) unsafe_dev_tokens
    × (given public_token ≡ false)
    × All (λ o. o ≢ "*") origins
    × (0 < length origins)

-- A limiter that the servers share.
abbrev pub IsLimited : Option String → Option String → Type 0
IsLimited backend redis_url =
    (lower_is (strip (or_empty backend)) "redis" ≡ true) × (strip (or_empty redis_url) ≢ "")

abbrev pub IsSafe :
    BuilderEnvironment
    → Option String
    → Option String
    → List String
    → Option String
    → Option String
    → Type 0
IsSafe local token public_token origins backend redis_url = Unit
IsSafe staging token public_token origins backend redis_url = IsGuarded token public_token origins
IsSafe production token public_token origins backend redis_url =
    IsGuarded token public_token origins × IsLimited backend redis_url
