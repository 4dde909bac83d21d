-- ===== src/Auth/Policy.antt =====
-- packages/auth/policy.py: the guards on a project's scope and on the deployment's settings.
use nautilus_builder.Prelude.{
  not, ◌||◌, Option, none, some, String, List, [], ◌∷◌, Result, ok, err, ◌>>◌, raise_if, ◌==◌,
  string_eq, if◌then◌else◌, any, ltb, ℕ,
}
use nautilus_builder.Prelude.Text.{strip, given, lower_is, characters}
use nautilus_builder.Auth.Models.{UserProjectContext, ScopedArtifactRef}

pub data BuilderEnvironment : Type 0 where
  local staging production : BuilderEnvironment

pub data Error : Type 0 where
  outside_scope : Error
  unknown_env : String → Error
  token_required token_unsafe token_short public_token_forbidden : Error
  origins_empty wildcard_origin : Error
  memory_backend_forbidden redis_backend_required redis_url_required : Error

unfoldable pub assert_same_project :
    UserProjectContext → ScopedArtifactRef → Result Error (Unit {0})
assert_same_project context artifact =
    raise_if
      (not (context.user_id == artifact.user_id) || not (context.project_id == artifact.project_id))
      outside_scope

unfoldable pub validate_builder_env : String → Result Error BuilderEnvironment
validate_builder_env raw =
    if strip raw == ""
    then ok local
    else if lower_is (strip raw) "local"
    then ok local
    else if lower_is (strip raw) "staging"
    then ok staging
    else if lower_is (strip raw) "production"
    then ok production
    else err (unknown_env raw)

abbrev pub unsafe_dev_tokens : List String
unsafe_dev_tokens = "dev-token" ∷ "test-token" ∷ "changeme" ∷ []

abbrev pub min_token_length : ℕ
min_token_length = 32

-- `bool(s)` and the text of a `str | None`
abbrev pub or_empty : Option String → String
or_empty none = ""
or_empty (some s) = s

unfoldable pub check_token : String → Option String → Result Error (Unit {0})
check_token token public_token = do
  raise_if (token == "") token_required
  raise_if (any (λ t. t == token) unsafe_dev_tokens) token_unsafe
  raise_if (ltb (characters token) min_token_length) token_short
  raise_if (given public_token) public_token_forbidden
  ok tt

unfoldable pub validate_production_token :
    BuilderEnvironment → Option String → Option String → Result Error (Unit {0})
unfolding check_token
validate_production_token local token public_token = ok tt
validate_production_token staging token public_token = check_token (or_empty token) public_token
validate_production_token production token public_token = check_token (or_empty token) public_token

unfoldable pub check_origins : List String → Result Error (Unit {0})
check_origins [] = err origins_empty
check_origins (o ∷ os) = raise_if (any (λ t. t == "*") (o ∷ os)) wildcard_origin

unfoldable pub validate_cors_config : BuilderEnvironment → List String → Result Error (Unit {0})
unfolding check_origins
validate_cors_config local origins = ok tt
validate_cors_config staging origins = check_origins origins
validate_cors_config production origins = check_origins origins

unfoldable pub validate_rate_limit_config :
    BuilderEnvironment → Option String → Option String → Result Error (Unit {0})
validate_rate_limit_config local backend redis_url = ok tt
validate_rate_limit_config staging backend redis_url = ok tt
validate_rate_limit_config production backend redis_url =
    if not (lower_is (strip (or_empty backend)) "redis")
    then (if lower_is (strip (or_empty backend)) "memory"
        then err memory_backend_forbidden
        else err redis_backend_required)
    else raise_if (strip (or_empty redis_url) == "") redis_url_required
