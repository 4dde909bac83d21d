-- ===== src/Auth/RateLimit.antt =====
-- packages/auth/rate_limit.py: the sliding windows in memory. Times and the length of the window are
-- in one unit; `now - window_seconds`, which may be negative, is added on the other side.
use nautilus_builder.Prelude.{
  ℕ, ◌+◌, Bool, true, false, not, Option, none, some, String, List, [], ◌∷◌, ◌++◌, ltb, length,
  string_eq, if◌then◌else◌,
}
use nautilus_builder.Prelude.Dict.{Dict, get, put, remove}

pub record InMemoryRateLimiter : Type 0 where
  pub max_requests : ℕ
  pub window_seconds : ℕ
  pub windows : Dict String (List ℕ)

-- `self._windows[key]` of a `defaultdict(list)`
unfoldable pub window_of : String → Dict String (List ℕ) → List ℕ
window_of key ws = elim (get key ws) [ none ↦ [] | some w ↦ w ]

-- The loop that pops what is older than the cutoff from the front.
unfoldable pub remove_expired : ℕ → ℕ → List ℕ → List ℕ
remove_expired seconds now [] = []
remove_expired seconds now (t ∷ ts) =
    let rest = remove_expired seconds now ts in if ltb (t + seconds) now then rest else t ∷ ts

abbrev pub set_windows : InMemoryRateLimiter → Dict String (List ℕ) → InMemoryRateLimiter
set_windows s ws = record {
  max_requests = s.max_requests;
  window_seconds = s.window_seconds;
  windows = ws;
}

-- The window after a request, in which a request that is let through is noted.
unfoldable pub admit : ℕ → ℕ → ℕ → List ℕ → Bool × List ℕ
unfolding remove_expired
admit max seconds now w =
    let live = remove_expired seconds now w in
    if not (ltb (length live) max) then (false, live) else (true, live ++ now ∷ [])

unfoldable pub is_allowed : ℕ → String → InMemoryRateLimiter → Bool × InMemoryRateLimiter
unfolding window_of admit
is_allowed now key s =
    let result = admit s.max_requests s.window_seconds now (window_of key s.windows) in
    (result.0, set_windows s (put key result.1 s.windows))

unfoldable pub reset : Option String → InMemoryRateLimiter → InMemoryRateLimiter
reset none s = set_windows s []
reset (some key) s = set_windows s (remove key s.windows)
