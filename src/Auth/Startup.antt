-- ===== src/Auth/Startup.antt =====
-- services/api/_app_env.py: the policy that the API checks when it starts, on the environment's
-- variables, and the token that it registers.
use nautilus_builder.Prelude.{
  ℕ, Option, String, List, Result, ok, ◌>>=◌, ◌>>◌, string_eq, if◌then◌else◌, ltb, select, map,
}
use nautilus_builder.Prelude.Text.{strip, truthy, split_at}
use nautilus_builder.Auth.Policy.{
  BuilderEnvironment, local, staging, production, Error, or_empty, validate_builder_env,
  validate_production_token, validate_cors_config, validate_rate_limit_config,
}

-- `os.environ.get`
abbrev pub Environ : Type 0
Environ = String → Option String

-- The code point of the comma is 44.
unfoldable pub cors_origins_from_env : Environ → List String
cors_origins_from_env environ =
    select truthy (map strip (split_at 44 (or_empty (environ "BUILDER_CORS_ORIGINS"))))

abbrev pub priority : BuilderEnvironment → ℕ
priority local = 0
priority staging = 1
priority production = 2

unfoldable pub strictest : BuilderEnvironment → BuilderEnvironment → BuilderEnvironment
strictest a b = if ltb (priority a) (priority b) then b else a

-- `_strictest_configured_env`; the list of the two is never empty.
unfoldable pub strictest_configured_env : Environ → Result Error BuilderEnvironment
unfolding strictest
strictest_configured_env environ = do
  a ← validate_builder_env (or_empty (environ "BUILDER_ENV"))
  b ← validate_builder_env (or_empty (environ "APP_ENV"))
  ok (strictest a b)

unfoldable pub validate_startup_policy : Environ → Result Error (Unit {0})
validate_startup_policy environ = do
  env ← strictest_configured_env environ
  validate_production_token env (environ "BUILDER_API_TOKEN")
      (environ "NEXT_PUBLIC_BUILDER_API_TOKEN")
  validate_cors_config env (cors_origins_from_env environ)
  validate_rate_limit_config env (environ "BUILDER_RATE_LIMIT_BACKEND")
      (environ "BUILDER_REDIS_URL")
