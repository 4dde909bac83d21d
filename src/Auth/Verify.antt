-- ===== src/Auth/Verify.antt =====
-- Which tokens of packages/auth/service.py are valid, in every state that calls reach.
use mathlib.Core.Path.{subst}
use nautilus_builder.Prelude.{
  leb, ◌+◌, ◌∙◌, ℕ, ◌≤◌, Bool, true, ◌||◌, Option, none, some, String, List, [], ◌∷◌, ◌++◌, Result,
  ok, err, ◌==◌, string_eq, if◌then◌else◌, ltb, length, ◌≡◌, refl, arith, length-append, passed,
  Option-cases, Bool-cases, inl, inr,
}
use nautilus_builder.Prelude.Text.{strip}
use nautilus_builder.Prelude.Dict.{Dict, get, remove}
use nautilus_builder.Prelude.Dict.Unique.{Unique}
use nautilus_builder.Prelude.Dict.Order.{
  put_last, get-remove_self, remove-Unique, length-remove, length-remove_le, get-last,
  put_last-Unique, pop_down_to-Unique, length-pop_down_to, get-pop_down_to,
}
use nautilus_builder.Auth.Models.{UserProjectContext, AuthToken}
use nautilus_builder.Auth.Tokens.{
  AuthTokenService, TokenError, invalid_token, token_expired, new, set_tokens, context_of,
  evict_if_needed, register_token, issue_token, issued, count_on, issue_name, is_expired,
  verify_token, revoke_token, Call, register, issue, verify, revoke, call, run,
}

-- The number of tokens is within the limit, where there is one.
abbrev pub IsBounded : Option ℕ → ℕ → Type 0
IsBounded none n = Unit
IsBounded (some max) n = n ≤ max

-- No token is listed twice, and there are at most as many as the limit says.
abbrev pub IsSound : AuthTokenService → Type 0
IsSound s = Unique s.tokens × IsBounded s.max_tokens (length s.tokens)

evict-Unique :
    (max : Option ℕ) (d : Dict String (ℕ × UserProjectContext))
    → Unique d
    → Unique (evict_if_needed max d)
unfolding evict_if_needed
evict-Unique none d u = u
evict-Unique (some max) d u = pop_down_to-Unique max d u

evict-IsBounded :
    (max : Option ℕ) (d : Dict String (ℕ × UserProjectContext))
    → IsBounded max (length (evict_if_needed max d))
unfolding evict_if_needed
evict-IsBounded none d = tt
evict-IsBounded (some max) d = length-pop_down_to max d

IsBounded-le : (max : Option ℕ) (a b : ℕ) → a ≤ b → IsBounded max b → IsBounded max a
IsBounded-le none a b h k = tt
IsBounded-le (some max) a b h k = omega (arith, h, k)

remove-IsSound :
    (token : String) (s : AuthTokenService)
    → IsSound s
    → IsSound (set_tokens s (remove token s.tokens))
remove-IsSound token s (u, b) = (
  remove-Unique token s.tokens u,
  IsBounded-le s.max_tokens (length (remove token s.tokens)) (length s.tokens)
      (length-remove_le token s.tokens) b,
)

touch-IsSound :
    (token : String) (e : ℕ × UserProjectContext) (s : AuthTokenService)
    → get token s.tokens ≡ some e
    → IsSound s
    → IsSound (set_tokens s (put_last token e s.tokens))
unfolding put_last
touch-IsSound token e s g (u, b) = (
  put_last-Unique token e s.tokens u,
  IsBounded-le s.max_tokens (length (remove token s.tokens ++ (token, e) ∷ [])) (length s.tokens)
      (omega (
        arith,
        length-append (remove token s.tokens) ((token, e) ∷ []),
        length-remove token e s.tokens g,
      ))
      b,
)

-- What a registration leaves, where it does not raise.
abbrev Leaves : Result TokenError (AuthToken × AuthTokenService) → Type 0
Leaves (ok (t, s')) = IsSound s'
Leaves (err e) = Unit

register_token-IsSound :
    (now : ℕ) (token user_id project_id role : String) (s : AuthTokenService)
    → IsSound s
    → Leaves (register_token now token user_id project_id role s)
unfolding register_token
register_token-IsSound now token user_id project_id role s (u, b) =
    let d = put_last (strip token) (now, context_of user_id project_id role) s.tokens in
    let sound : Unique (evict_if_needed s.max_tokens d)
        × IsBounded s.max_tokens (length (evict_if_needed s.max_tokens d)) =
      (
        evict-Unique s.max_tokens d
            (put_last-Unique (strip token) (now, context_of user_id project_id role) s.tokens u),
        evict-IsBounded s.max_tokens d,
      ) in
    elim (Bool-cases (user_id == "" || project_id == "")) [
      | inl bad ↦ rw bad tt
      | inr fine ↦ rw fine (elim (Bool-cases (strip token == "")) [
        | inl empty ↦ rw empty tt
        | inr set ↦ rw set sound
      ])
    ]

verify_token-IsSound :
    (now : ℕ) (token : String) (s : AuthTokenService)
    → IsSound s
    → IsSound (verify_token now token s).1
unfolding verify_token
verify_token-IsSound now token s h = elim (Option-cases (get token s.tokens)) [
  | inl none_found ↦ rw (none_found, verify_token) h
  | inr (e, found) ↦
      rw (found, verify_token)
        (elim (Bool-cases (is_expired s.ttl_seconds e.0 now)) [
          | inl old ↦ rw old (remove-IsSound token s h)
          | inr young ↦ rw young (touch-IsSound token e s found h)
        ])
]

issued-IsSound :
    (s : AuthTokenService) (m : Result TokenError (AuthToken × AuthTokenService))
    → IsSound s
    → Leaves m
    → IsSound (issued s m).1
issued-IsSound s (ok (t, s')) h l = l
issued-IsSound s (err e) h l = h

call-IsSound : (c : Call) (s : AuthTokenService) → IsSound s → IsSound (call c s)
unfolding call revoke_token issue_token
call-IsSound (register now token user_id project_id role) s h =
    issued-IsSound s (register_token now token user_id project_id role s) h
      (register_token-IsSound now token user_id project_id role s h)
call-IsSound (issue now user_id project_id role) s h =
    let token = issue_name user_id project_id s.counter in
    issued-IsSound (count_on s) (register_token now token user_id project_id role (count_on s)) h
      (register_token-IsSound now token user_id project_id role (count_on s) h)
call-IsSound (verify now token) s h = verify_token-IsSound now token s h
call-IsSound (revoke token) s h = remove-IsSound token s h

new-IsBounded : (max : Option ℕ) → IsBounded max 0
new-IsBounded none = tt
new-IsBounded (some max) = omega arith

run-keeps : (cs : List Call) (s : AuthTokenService) → IsSound s → IsSound (run cs s)
unfolding run
run-keeps [] s h = h
run-keeps (c ∷ cs) s h = run-keeps cs (call c s) (call-IsSound c s h)

-- After any sequence of calls on a new service, no token is listed twice, and there are at most as
-- many tokens as the limit says, where there is one.
pub run-IsSound : (cs : List Call) (max ttl : Option ℕ) → IsSound (run cs (new max ttl))
run-IsSound cs max ttl = run-keeps cs (new max ttl) (tt, new-IsBounded max)

-- A service that can hold a token at all.
abbrev pub holds_one : Option ℕ → Bool
holds_one none = true
holds_one (some max) = ltb 0 max

get-evict :
    (max : Option ℕ) (k : String) (v : ℕ × UserProjectContext)
    (d : Dict String (ℕ × UserProjectContext))
    → holds_one max ≡ true
    → Unique d
    → get k (evict_if_needed max (put_last k v d)) ≡ some v
unfolding evict_if_needed put_last
get-evict none k v d h u = get-last k v (remove k d) (get-remove_self k d u)
get-evict (some max) k v d h u =
    get-pop_down_to max k v (remove k d) (ground arith) (get-remove_self k d u)

verify-found :
    (now : ℕ) (token : String) (s : AuthTokenService) (e : ℕ × UserProjectContext)
    → get token s.tokens ≡ some e
    → (verify_token now token s).0
      ≡ (if is_expired s.ttl_seconds e.0 now then err token_expired else ok e.1)
unfolding verify_token
verify-found now token s e found = rw (found, verify_token) (ground arith)

verify-unknown :
    (now : ℕ) (token : String) (s : AuthTokenService)
    → get token s.tokens ≡ none
    → (verify_token now token s).0 ≡ err invalid_token
unfolding verify_token
verify-unknown now token s unknown = rw (unknown, verify_token) refl

-- What a token that was registered at `now` answers later: its context until its age is more than the
-- limit, if there is one.
abbrev pub answer_at : Option ℕ → ℕ → ℕ → UserProjectContext → Result TokenError UserProjectContext
answer_at none now later context = ok context
answer_at (some ttl) now later context =
    if leb later (now + ttl) then ok context else err token_expired

answer-is_expired :
    (ttl : Option ℕ) (now later : ℕ) (context : UserProjectContext)
    → (if is_expired ttl now later then err token_expired else ok context)
      ≡ answer_at ttl now later context
unfolding is_expired
answer-is_expired none now later context = refl
answer-is_expired (some ttl) now later context = ground arith

-- In a service that can hold a token at all, a token that was registered by the last call, whatever was
-- evicted for it, is verified as the context it was registered for as long as its age is within the
-- limit, and is expired after that; once it is revoked, it is invalid.
pub verify-register :
    (now later : ℕ) (token user_id project_id role : String) (s : AuthTokenService) (t : AuthToken)
    (s' : AuthTokenService)
    → IsSound s
    → holds_one s.max_tokens ≡ true
    → register_token now token user_id project_id role s ≡ ok (t, s')
    → ((verify_token later t.token s').0
        ≡ answer_at s.ttl_seconds now later (context_of user_id project_id role))
      × ((verify_token later t.token (revoke_token t.token s')).0 ≡ err invalid_token)
unfolding register_token revoke_token
verify-register now later token user_id project_id role s t s' (u, b) one h =
    let (_, k₁) = passed (user_id == "" || project_id == "") _ _ h in
    let (_, k₂) = passed (strip token == "") _ _ k₁ in
    let e : ℕ × UserProjectContext = (now, context_of user_id project_id role) in
    let d = evict_if_needed s.max_tokens (put_last (strip token) e s.tokens) in
    let same : (
      record { token = strip token; context = context_of user_id project_id role },
      set_tokens s d,
    )
        ≡ (t, s') =
      ground arith in
    subst
      (λ (q : AuthToken × AuthTokenService).
        ((verify_token later q.0.token q.1).0 ≡ answer_at s.ttl_seconds now later e.1)
        × ((verify_token later q.0.token (revoke_token q.0.token q.1)).0 ≡ err invalid_token))
      same
      (
        verify-found later (strip token) (set_tokens s d) e
              (get-evict s.max_tokens (strip token) e s.tokens one u)
            ∙ answer-is_expired s.ttl_seconds now later e.1,
        verify-unknown later (strip token) (set_tokens s (remove (strip token) d)) (
            get-remove_self (strip token) d (
              evict-Unique s.max_tokens (put_last (strip token) e s.tokens)
                (put_last-Unique (strip token) e s.tokens u))),
      )
