-- ===== src/Auth/Tokens.antt =====
-- `AuthTokenService` of packages/auth/service.py: tokens in the order of their last use, with an age
-- limit and a number limit that may both be absent. `time.monotonic()` is an argument.
use nautilus_builder.Prelude.{
  ℕ, suc, ◌+◌, Bool, false, ◌||◌, Option, none, some, String, List, [], ◌∷◌, Result, ok, err, ◌>>◌,
  raise_if, ◌==◌, string_eq, if◌then◌else◌, ltb,
}
use nautilus_builder.Prelude.Text.{strip, append, decimal}
use nautilus_builder.Prelude.Dict.{Dict, get, remove}
use nautilus_builder.Prelude.Dict.Order.{put_last, pop_down_to}
use nautilus_builder.Auth.Models.{UserProjectContext, AuthToken}

pub data TokenError : Type 0 where
  invalid_context token_required : TokenError
  invalid_token token_expired : TokenError

pub record AuthTokenService : Type 0 where
  pub counter : ℕ
  pub max_tokens : Option ℕ
  pub ttl_seconds : Option ℕ
  pub tokens : Dict String (ℕ × UserProjectContext)

abbrev pub new : Option ℕ → Option ℕ → AuthTokenService
new max ttl = record { counter = 1; max_tokens = max; ttl_seconds = ttl; tokens = [] }

abbrev pub set_tokens : AuthTokenService → Dict String (ℕ × UserProjectContext) → AuthTokenService
set_tokens s d = record {
  counter = s.counter;
  max_tokens = s.max_tokens;
  ttl_seconds = s.ttl_seconds;
  tokens = d;
}

-- `_evict_if_needed`
unfoldable pub evict_if_needed :
    Option ℕ → Dict String (ℕ × UserProjectContext) → Dict String (ℕ × UserProjectContext)
evict_if_needed none d = d
evict_if_needed (some max) d = pop_down_to max d

abbrev pub context_of : String → String → String → UserProjectContext
context_of user_id project_id role = record {
  user_id = user_id;
  project_id = project_id;
  role = role;
}

-- `UserProjectContext(…)` wants a user and a project.
unfoldable pub register_token :
    ℕ
    → String
    → String
    → String
    → String
    → AuthTokenService
    → Result TokenError (AuthToken × AuthTokenService)
unfolding evict_if_needed
register_token now token user_id project_id role s = do
  raise_if (user_id == "" || project_id == "") invalid_context
  raise_if (strip token == "") token_required
  ok (
    record { token = strip token; context = context_of user_id project_id role },
    set_tokens s (
        evict_if_needed s.max_tokens
          (put_last (strip token) (now, context_of user_id project_id role) s.tokens)),
  )

-- `next(self._counter)`
abbrev pub count_on : AuthTokenService → AuthTokenService
count_on s = record {
  counter = suc s.counter;
  max_tokens = s.max_tokens;
  ttl_seconds = s.ttl_seconds;
  tokens = s.tokens;
}

abbrev pub issued :
    AuthTokenService
    → Result TokenError (AuthToken × AuthTokenService)
    → Result TokenError AuthToken × AuthTokenService
issued s (ok (t, s')) = (ok t, s')
issued s (err e) = (err e, s)

-- `f"nb_test_{user_id}_{project_id}_{n}"`
abbrev pub issue_name : String → String → ℕ → String
issue_name user_id project_id n =
    append "nb_test_" (append user_id (append "_" (append project_id (append "_" (decimal n)))))

-- The counter counts on also where the registration raises.
unfoldable pub issue_token :
    ℕ → String → String → String → AuthTokenService → Result TokenError AuthToken × AuthTokenService
unfolding register_token
issue_token now user_id project_id role s =
    let token = issue_name user_id project_id s.counter in
    issued (count_on s) (register_token now token user_id project_id role (count_on s))

-- `age > self._ttl_seconds`; the age is not negative, since the clock does not go back.
unfoldable pub is_expired : Option ℕ → ℕ → ℕ → Bool
is_expired none issued_at now = false
is_expired (some ttl) issued_at now = ltb (issued_at + ttl) now

unfoldable pub verify_token :
    ℕ → String → AuthTokenService → Result TokenError UserProjectContext × AuthTokenService
unfolding is_expired
verify_token now token s = elim (get token s.tokens) [
  | none ↦ (err invalid_token, s)
  | some (issued_at, context) ↦
      if is_expired s.ttl_seconds issued_at now
      then (err token_expired, set_tokens s (remove token s.tokens))
      else (ok context, set_tokens s (put_last token (issued_at, context) s.tokens))
]

unfoldable pub revoke_token : String → AuthTokenService → AuthTokenService
revoke_token token s = set_tokens s (remove token s.tokens)

-- The calls that the routes make, with the time of each.
pub data Call : Type 0 where
  register : ℕ → String → String → String → String → Call
  issue : ℕ → String → String → String → Call
  verify : ℕ → String → Call
  revoke : String → Call

unfoldable pub call : Call → AuthTokenService → AuthTokenService
unfolding register_token issue_token verify_token revoke_token
call (register now token user_id project_id role) s =
    (issued s (register_token now token user_id project_id role s)).1
call (issue now user_id project_id role) s = (issue_token now user_id project_id role s).1
call (verify now token) s = (verify_token now token s).1
call (revoke token) s = revoke_token token s

unfoldable pub run : List Call → AuthTokenService → AuthTokenService
unfolding call
run [] s = s
run (c ∷ cs) s = run cs (call c s)
