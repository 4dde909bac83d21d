-- ===== src/Auth/Window.antt =====
-- The windows of packages/auth/rate_limit.py against a log of all requests that were let through.
use nautilus_builder.Prelude.{
  ℕ, ◌+◌, ◌≤◌, Bool, true, false, not, ◌&&◌, String, List, [], ◌∷◌, ◌++◌, ltb, length, count, All,
  ◌==◌, string_eq, if◌then◌else◌, ◌≡◌, ◌∙◌, refl, sym, arith, eq_iff, count-append, Bool-cases, inl,
  inr,
}
use mathlib.Core.Path.{subst}
use nautilus_builder.Prelude.Dict.{Dict, put}
use nautilus_builder.Prelude.Dict.Laws.{get-put}
use nautilus_builder.Auth.RateLimit.{InMemoryRateLimiter, window_of, remove_expired, is_allowed}

-- A request's time and its client.
abbrev pub Request : Type 0
Request = ℕ × String

-- The requests of a client that are still in the window.
unfoldable pub recent : ℕ → ℕ → String → List Request → ℕ
recent seconds now key log =
    count (λ (r : Request). r.1 == key && not (ltb (r.0 + seconds) now)) log

-- The promise of a sliding window: a request is let through where fewer than the limit of the same
-- client's were let through in the window that ends with it.
unfoldable pub sliding : ℕ → ℕ → List Request → List Request → List Bool
unfolding recent
sliding max seconds log [] = []
sliding max seconds log ((now, key) ∷ rs) =
    let accepted = sliding max seconds (log ++ (now, key) ∷ []) rs in
    let refused = sliding max seconds log rs in
    if ltb (recent seconds now key log) max then true ∷ accepted else false ∷ refused

-- The answers of the limiter to a sequence of requests.
unfoldable pub answers : InMemoryRateLimiter → List Request → List Bool
unfolding is_allowed
answers s [] = []
answers s ((now, key) ∷ rs) = let result = is_allowed now key s in result.0 ∷ answers result.1 rs

-- The clock does not go back.
abbrev pub IsOrdered : ℕ → List Request → Type 0
IsOrdered last [] = Unit
IsOrdered last ((now, key) ∷ rs) = (last ≤ now) × IsOrdered now rs

-- The times in a window, none of which is in the future.
abbrev pub Sorted : List ℕ → ℕ → Type 0
Sorted [] last = Unit
Sorted (t ∷ ts) last = (t ≤ last) × All (λ u. t ≤ u) ts × Sorted ts last

abbrev pub live : ℕ → ℕ → ℕ → Bool
live seconds now t = not (ltb (t + seconds) now)

pub Sorted-mono : (w : List ℕ) (a b : ℕ) → a ≤ b → Sorted w a → Sorted w b
Sorted-mono [] a b h s = tt
Sorted-mono (t ∷ ts) a b h s = (omega (arith, h, s.0), s.1, Sorted-mono ts a b h s.2)

All-append :
    (w : List ℕ) (t now : ℕ) → t ≤ now → All (λ u. t ≤ u) w → All (λ u. t ≤ u) (w ++ now ∷ [])
All-append [] t now h a = (h, tt)
All-append (u ∷ w) t now h a = (a.0, All-append w t now h a.1)

pub Sorted-append : (w : List ℕ) (now : ℕ) → Sorted w now → Sorted (w ++ now ∷ []) now
Sorted-append [] now s = (omega arith, tt, tt)
Sorted-append (t ∷ w) now s = (s.0, All-append w t now s.0 s.1, Sorted-append w now s.2)

pub remove_expired-Sorted :
    (seconds now : ℕ) (w : List ℕ) (last : ℕ)
    → Sorted w last
    → Sorted (remove_expired seconds now w) last
unfolding remove_expired
remove_expired-Sorted seconds now [] last s = tt
remove_expired-Sorted seconds now (t ∷ w) last s =
    ground (arith, remove_expired-Sorted seconds now w last s.2)

-- What expired is not counted later.
pub count-remove_expired :
    (seconds now later : ℕ) (w : List ℕ)
    → now ≤ later
    → count (live seconds later) (remove_expired seconds now w) ≡ count (live seconds later) w
unfolding remove_expired
count-remove_expired seconds now later [] h = refl
count-remove_expired seconds now later (t ∷ w) h =
    ground (arith, count-remove_expired seconds now later w h)

count-All :
    (seconds now t : ℕ) (w : List ℕ)
    → now ≤ t + seconds
    → All (λ u. t ≤ u) w
    → count (live seconds now) w ≡ length w
count-All seconds now t [] h a = refl
count-All seconds now t (u ∷ w) h a = ground (arith, count-All seconds now t w h a.1)

pub length-remove_expired :
    (seconds now : ℕ) (w : List ℕ) (last : ℕ)
    → Sorted w last
    → length (remove_expired seconds now w) ≡ count (live seconds now) w
unfolding remove_expired
length-remove_expired seconds now [] last s = refl
length-remove_expired seconds now (t ∷ w) last s =
    ground (arith, length-remove_expired seconds now w last s.2, count-All seconds now t w)

window_of-put :
    (k j : String) (w : List ℕ) (ws : Dict String (List ℕ))
    → window_of j (put k w ws) ≡ (if k == j then w else window_of j ws)
unfolding window_of
window_of-put k j w ws = rw (get-put k j w ws, window_of) (ground arith)

-- What holds of the new window of a client, and of the old one of any other, holds after `put`.
pub put-cases {ℓ} :
    (k j : String) (w : List ℕ) (ws : Dict String (List ℕ)) (P : List ℕ → Type ℓ)
    → (k ≡ j → P w)
    → ((k == j) ≡ false → P (window_of j ws))
    → P (window_of j (put k w ws))
put-cases k j w ws P own other = elim (Bool-cases (k == j)) [
  | inl same ↦ subst P (sym (window_of-put k j w ws ∙ rw same refl)) (own ((eq_iff k j).0 same))
  | inr differ ↦ subst P (sym (window_of-put k j w ws ∙ rw differ refl)) (other differ)
]

pub recent-append :
    (seconds later now : ℕ) (key j : String) (log : List Request)
    → recent seconds later j (log ++ (now, key) ∷ [])
      ≡ recent seconds later j log + count (live seconds later) (if key == j then now ∷ [] else [])
unfolding recent
recent-append seconds later now key j log = ground (
  arith,
  count-append (λ (r : Request). r.1 == j && live seconds later r.0) log ((now, key) ∷ []),
)
