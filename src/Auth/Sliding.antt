-- ===== src/Auth/Sliding.antt =====
-- The limiter of packages/auth/rate_limit.py keeps the promise of a sliding window.
use nautilus_builder.Prelude.{
  ℕ, ◌≤◌, Bool, true, false, String, List, [], ◌∷◌, ◌++◌, ltb, length, count, ◌==◌, string_eq, ◌≡◌,
  ◌∙◌, refl, sym, ap, arith, count-append, beq_refl, Bool-cases, inl, inr,
}
use mathlib.Core.Path.{subst}
use nautilus_builder.Prelude.Dict.{Dict, get, put}
use nautilus_builder.Auth.RateLimit.{
  InMemoryRateLimiter, window_of, remove_expired, admit, is_allowed,
}
use nautilus_builder.Auth.Window.{
  Request, recent, sliding, answers, IsOrdered, Sorted, live, Sorted-mono, Sorted-append,
  remove_expired-Sorted, count-remove_expired, length-remove_expired, put-cases, recent-append,
}

-- A client's window is in order, and counts from now on what the log counts.
Tracks : ℕ → List Request → ℕ → String → List ℕ → Type 0
Tracks seconds log last key w =
    Sorted w last
    × ((later : ℕ) → last ≤ later → count (live seconds later) w ≡ recent seconds later key log)

module _ (seconds last now : ℕ) (key : String) (w : List ℕ) (log : List Request) where
  later-Tracks : last ≤ now → Tracks seconds log last key w → Tracks seconds log now key w
  unfolding Tracks
  later-Tracks h t = (Sorted-mono w last now h t.0, λ later k. t.1 later (omega (arith, h, k)))

  refuse-Tracks :
      last ≤ now
      → Tracks seconds log last key w
      → Tracks seconds log now key (remove_expired seconds now w)
  unfolding Tracks
  refuse-Tracks h t = (
    remove_expired-Sorted seconds now w now (Sorted-mono w last now h t.0),
    λ later k. count-remove_expired seconds now later w k ∙ t.1 later (omega (arith, h, k)),
  )

  length-Tracks :
      last ≤ now
      → Tracks seconds log last key w
      → length (remove_expired seconds now w) ≡ recent seconds now key log
  unfolding Tracks
  length-Tracks h t = length-remove_expired seconds now w last t.0 ∙ t.1 now h

  other-Tracks :
      (j : String)
      → (j == key) ≡ false
      → Tracks seconds log now key w
      → Tracks seconds (log ++ (now, j) ∷ []) now key w
  unfolding Tracks
  other-Tracks j differ t = (
    t.0,
    λ later k. t.1 later k ∙ sym (rw (recent-append seconds later now j key log) (ground arith)),
  )

  accept-Tracks :
      Tracks seconds log now key w → Tracks seconds (log ++ (now, key) ∷ []) now key (w ++ now ∷ [])
  unfolding Tracks
  accept-Tracks t = (
    Sorted-append w now t.0,
    λ later k.
        count-append (live seconds later) w (now ∷ [])
        ∙ sym (
            rw (recent-append seconds later now key key log)
              (rw (beq_refl key) (rw (t.1 later k) refl))),
  )

-- Every client's window is tracked.
AllTracked : ℕ → List Request → ℕ → Dict String (List ℕ) → Type 0
AllTracked seconds log last ws = (key : String) → Tracks seconds log last key (window_of key ws)

module _ (seconds last now : ℕ) (key : String) (ws : Dict String (List ℕ))
    (log : List Request) where
  refuse-AllTracked :
      last ≤ now
      → AllTracked seconds log last ws
      → AllTracked seconds log now (put key (remove_expired seconds now (window_of key ws)) ws)
  unfolding AllTracked
  refuse-AllTracked h t j =
      put-cases key j (remove_expired seconds now (window_of key ws)) ws (Tracks seconds log now j)
        (λ same.
          subst (λ i. Tracks seconds log now i (remove_expired seconds now (window_of key ws))) same
            (refuse-Tracks seconds last now key (window_of key ws) log h (t key)))
        (λ _. later-Tracks seconds last now j (window_of j ws) log h (t j))

  length-AllTracked :
      last ≤ now
      → AllTracked seconds log last ws
      → length (remove_expired seconds now (window_of key ws)) ≡ recent seconds now key log
  unfolding AllTracked
  length-AllTracked h t = length-Tracks seconds last now key (window_of key ws) log h (t key)

  accept-AllTracked :
      last ≤ now
      → AllTracked seconds log last ws
      → AllTracked seconds
          (log ++ (now, key) ∷ [])
          now
          (put key (remove_expired seconds now (window_of key ws) ++ now ∷ []) ws)
  unfolding AllTracked
  accept-AllTracked h t j =
      let rest = remove_expired seconds now (window_of key ws) in
      put-cases key j (rest ++ now ∷ []) ws (Tracks seconds (log ++ (now, key) ∷ []) now j)
        (λ same.
          subst (λ i. Tracks seconds (log ++ (now, key) ∷ []) now i (rest ++ now ∷ [])) same
            (accept-Tracks seconds last now key rest log
              (refuse-Tracks seconds last now key (window_of key ws) log h (t key))))
        (λ differ.
          other-Tracks seconds last now j (window_of j ws) log key differ
            (later-Tracks seconds last now j (window_of j ws) log h (t j)))

abbrev pub limiter : ℕ → ℕ → Dict String (List ℕ) → InMemoryRateLimiter
limiter max seconds ws = record { max_requests = max; window_seconds = seconds; windows = ws }

-- An answer and the answers after it, from what `admit` returns.
answers_step :
    (max seconds now : ℕ) (key : String) (ws : Dict String (List ℕ)) (rs : List Request) (b : Bool)
    (w : List ℕ)
    → admit max seconds now (window_of key ws) ≡ (b, w)
    → answers (limiter max seconds ws) ((now, key) ∷ rs)
      ≡ b ∷ answers (limiter max seconds (put key w ws)) rs
unfolding answers is_allowed
answers_step max seconds now key ws rs b w e =
    ap (λ (r : Bool × List ℕ). r.0 ∷ answers (limiter max seconds (put key r.1 ws)) rs) e

answers-AllTracked :
    (max seconds last : ℕ) (ws : Dict String (List ℕ)) (log rs : List Request)
    → AllTracked seconds log last ws
    → IsOrdered last rs
    → answers (limiter max seconds ws) rs ≡ sliding max seconds log rs
unfolding answers sliding admit
answers-AllTracked max seconds last ws log [] t h = refl
answers-AllTracked max seconds last ws log ((now, key) ∷ rs) t h =
    let rest = remove_expired seconds now (window_of key ws) in
    let same : length rest ≡ recent seconds now key log =
      length-AllTracked seconds last now key ws log h.0 t in
    elim (Bool-cases (ltb (recent seconds now key log) max)) [
      | inl fewer ↦
          answers_step max seconds now key ws rs true (rest ++ now ∷ []) (ground arith)
          ∙ ap (λ bs. true ∷ bs)
              (answers-AllTracked max seconds now (put key (rest ++ now ∷ []) ws)
                (log ++ (now, key) ∷ []) rs (accept-AllTracked seconds last now key ws log h.0 t)
                h.1)
          ∙ ground arith
      | inr full ↦
          answers_step max seconds now key ws rs false rest (ground arith)
          ∙ ap (λ bs. false ∷ bs)
              (answers-AllTracked max seconds now (put key rest ws) log rs
                (refuse-AllTracked seconds last now key ws log h.0 t) h.1)
          ∙ ground arith
    ]

-- A new limiter answers any sequence of requests of any clients, made at times that do not go back, as
-- the sliding window promises: each is let through exactly where fewer than the limit of the same
-- client's requests were let through in the window that ends with it.
pub answers-sliding :
    (max seconds : ℕ) (rs : List Request)
    → IsOrdered 0 rs
    → answers (limiter max seconds []) rs ≡ sliding max seconds [] rs
unfolding AllTracked Tracks window_of recent get
answers-sliding max seconds rs h =
    answers-AllTracked max seconds 0 [] [] rs (λ key. (tt, λ later k. refl)) h
