-- ===== src/Auth/Examples.antt =====
-- The theorems on packages/auth at small settings, requests and tokens.
use nautilus_builder.Prelude.{
  none, some, List, [], ◌∷◌, ok, err, ◌==◌, string_eq, ◌≡◌, refl, arith, if◌then◌else◌,
}
use nautilus_builder.Prelude.Dict.{get, remove}
use nautilus_builder.Prelude.Dict.Order.{put_last, pop_down_to}
use nautilus_builder.Prelude.Text.{strip, is_space}
use nautilus_builder.Auth.Models.{AuthToken}
use nautilus_builder.Auth.Startup.{Environ}
use nautilus_builder.Auth.Window.{Request, answers, sliding}
use nautilus_builder.Auth.Sliding.{limiter, answers-sliding}
use nautilus_builder.Auth.Tokens.{
  AuthTokenService, new, context_of, register_token, verify_token, revoke_token, evict_if_needed,
  is_expired, invalid_token, token_expired, Call, register, verify, run,
}
use nautilus_builder.Auth.Verify.{IsSound, run-IsSound, verify-register}

abbrev environ : Environ
environ name =
    if name == "BUILDER_ENV"
    then some "Production"
    else if name == "APP_ENV"
    then some "local"
    else if name == "BUILDER_API_TOKEN"
    then some "0123456789abcdef0123456789abcdef"
    else if name == "BUILDER_CORS_ORIGINS"
    then some "https://a.example, https://b.example"
    else if name == "BUILDER_RATE_LIMIT_BACKEND"
    then some "redis"
    else if name == "BUILDER_REDIS_URL"
    then some "redis://r"
    else none

-- Two requests of one client in ten seconds, and one of another.
abbrev requests : List Request
requests = (1, "a") ∷ (2, "b") ∷ (3, "a") ∷ (4, "a") ∷ (12, "a") ∷ []

answers-sliding_example : answers (limiter 2 10 []) requests ≡ sliding 2 10 [] requests
answers-sliding_example =
    answers-sliding 2 10 requests
      (omega arith, (omega arith, (omega arith, (omega arith, (omega arith, tt)))))

-- A service for one token, which holds one that a second registration evicts.
abbrev calls : List Call
calls = register 1 "first" "user" "project" "builder" ∷ verify 2 "first" ∷ []

run-IsSound_example : IsSound (run calls (new (some 1) (some 60)))
run-IsSound_example = run-IsSound calls (some 1) (some 60)

abbrev held : AuthTokenService
held = run calls (new (some 1) (some 60))

abbrev second : AuthTokenService
second = run (register 3 " second " "user" "project" "builder" ∷ []) held

abbrev token : AuthToken
token = record { token = "second"; context = context_of "user" "project" "builder" }

registered :
    (register_token 3 " second " "user" "project" "builder" held ≡ ok (token, second))
    × (get "first" held.tokens ≡ some (1, context_of "user" "project" "builder"))
    × (get "first" second.tokens ≡ none)
    × (held.max_tokens ≡ some 1)
unfolding register_token run evict_if_needed put_last pop_down_to get remove strip is_space
    verify_token is_expired
registered = (refl, refl, refl, refl)

verify-register_example :
    ((verify_token 64 "second" second).0 ≡ (
      if is_expired held.ttl_seconds 3 64
      then err token_expired
      else ok (context_of "user" "project" "builder")))
    × ((verify_token 64 "second" (revoke_token "second" second)).0 ≡ err invalid_token)
unfolding register_token run evict_if_needed put_last pop_down_to get remove strip is_space
    verify_token is_expired
verify-register_example =
    verify-register 3 64 " second " "user" "project" "builder" held token second
      (run-IsSound calls (some 1) (some 60)) refl registered.0
