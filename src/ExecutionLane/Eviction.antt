-- ===== src/ExecutionLane/Eviction.antt =====
-- The bounded tables of `ExecutionLaneService`: reports and sessions beyond the limit are dropped,
-- the oldest first (`record_report`, `record_session`, `_evict_reports_if_needed`,
-- `_evict_sessions_if_needed` of packages/execution_lane/service.py).
use nautilus_builder.Prelude.{
  ℕ, suc, ◌-◌, ◌≤◌, ◌<◌, none, some, String, [], ◌∷◌, ◌++◌, ok, >>=-eq-ok, or_raise, or_raise-eq-ok,
  string_eq, ◌≡◌, refl, arith, eq_iff, ltb, length, drop, Bool-cases, Option-cases, inl, inr,
}
use nautilus_builder.Prelude.Dict.{Dict, get, put}
use nautilus_builder.Prelude.Dict.Laws.{get-put_self, put_new, length-put_known}
use nautilus_builder.Json.{Payload}
use nautilus_builder.ExecutionLane.Command.{ExecutionLaneCommand, reported}
use nautilus_builder.ExecutionLane.Report.{ExecutionLaneReport, validate_report, report_payload}
use nautilus_builder.ExecutionLane.Slots.{ExecutionLaneSession}
use nautilus_builder.ExecutionLane.Service.{
  Readers, ExecutionLaneService, evict_to, evict_if_needed, record_report, record_session,
}

module _ {ℓ} {V : Type ℓ} (max : ℕ) where
  -- The loop drops as many of the oldest entries as there are too many.
  pub evict_to_lem : (d : Dict String V) → evict_to max d ≡ drop (length d - max) d
  unfolding evict_to
  evict_to_lem [] = let none_left : 0 - max ≡ 0 = omega arith in rw none_left refl
  evict_to_lem ((k, v) ∷ d) = elim (Bool-cases (ltb max (suc (length d)))) [
    | inl full ↦
        let more : suc (length d) - max ≡ suc (length d - max) = ground arith in
        rw (full, more) (evict_to_lem d)
    | inr fits ↦ let enough : suc (length d) - max ≡ 0 = ground arith in rw (fits, enough) refl
  ]

  pub length-evict_to : (d : Dict String V) → length (evict_to max d) ≤ max
  unfolding evict_to
  length-evict_to [] = omega arith
  length-evict_to ((k, v) ∷ d) = ground (arith, length-evict_to d)

  evict_to_small : (d : Dict String V) → length d ≤ max → evict_to max d ≡ d
  unfolding evict_to
  evict_to_small [] h = refl
  evict_to_small ((k, v) ∷ d) h = ground arith

  get-append_last :
      (k : String) (v : V) (d : Dict String V) → get k d ≡ none → get k (d ++ (k, v) ∷ []) ≡ some v
  unfolding get
  get-append_last k v [] g = ground (arith, eq_iff k k)
  get-append_last k v ((j, w) ∷ d) g = ground (arith, get-append_last k v d)

  -- What was put last survives the loop.
  get-evict_to :
      (k : String) (v : V) (d : Dict String V)
      → 0 < max
      → get k d ≡ none
      → get k (evict_to max (d ++ (k, v) ∷ [])) ≡ some v
  unfolding evict_to get
  get-evict_to k v [] h g = ground (arith, eq_iff k k)
  get-evict_to k v ((j, w) ∷ d) h g =
      ground (arith, get-evict_to k v d h, get-append_last k v d, eq_iff j k)

  get-evict-put :
      (k : String) (v : V) (d : Dict String V)
      → 0 < max
      → length d ≤ max
      → get k (evict_to max (put k v d)) ≡ some v
  get-evict-put k v d h l = elim (Option-cases (get k d)) [
    | inl new ↦ rw (put_new k v d new) (get-evict_to k v d h new)
    | inr (w, old) ↦
        rw (evict_to_small (put k v d) (omega (arith, length-put_known k v w d old)))
          (get-put_self k v d)
  ]

record_report_inv :
    (r : Readers) (id : String) (d : Payload) (x : ExecutionLaneReport)
    (s s' : ExecutionLaneService)
    → record_report r id d s ≡ ok (x, s')
    → (c : ExecutionLaneCommand) × (get id s.commands ≡ some c)
      × (s'.reports ≡ evict_if_needed s.max_reports (put x.report_id x s.reports))
      × (s'.commands ≡ put c.command_id (record c { status = reported }) s.commands)
unfolding record_report
record_report_inv r id d x s s' h =
    let (c, e₁, k₁) = >>=-eq-ok (or_raise (get id s.commands) _) _ h in
    let (y, e₂, k₂) =
      >>=-eq-ok (validate_report r.digest r.read_report (report_payload c d)) _ k₁ in
    (c, or_raise-eq-ok _ _ c e₁, ground arith, ground arith)

-- Where the service has a positive limit of reports and is within it, a recorded report is stored
-- and the service is within its limit again; the reports that went are the oldest.
pub record_report_bounded :
    (r : Readers) (id : String) (d : Payload) (x : ExecutionLaneReport)
    (s s' : ExecutionLaneService) (max : ℕ)
    → s.max_reports ≡ some max
    → 0 < max
    → length s.reports ≤ max
    → record_report r id d s ≡ ok (x, s')
    → (get x.report_id s'.reports ≡ some x)
      × (length s'.reports ≤ max)
      × (s'.reports
          ≡ drop (length (put x.report_id x s.reports) - max) (put x.report_id x s.reports))
unfolding evict_if_needed
record_report_bounded r id d x s s' max m pos fits h =
    let (c, _, e, _) = record_report_inv r id d x s s' h in
    let e' : s'.reports ≡ evict_to max (put x.report_id x s.reports) = rw m at e in
    (
      rw e' (get-evict-put max x.report_id x s.reports pos fits),
      rw e' (length-evict_to max (put x.report_id x s.reports)),
      rw e' (evict_to_lem max (put x.report_id x s.reports)),
    )

-- Where the service has a positive limit of sessions and is within it, a recorded session is stored
-- and the service is within its limit again; the sessions that went are the oldest.
pub record_session_bounded :
    (x : ExecutionLaneSession) (s : ExecutionLaneService) (max : ℕ)
    → s.max_sessions ≡ some max
    → 0 < max
    → length s.sessions ≤ max
    → (get x.session_id (record_session x s).sessions ≡ some x)
      × (length (record_session x s).sessions ≤ max)
      × ((record_session x s).sessions
          ≡ drop (length (put x.session_id x s.sessions) - max) (put x.session_id x s.sessions))
unfolding record_session
record_session_bounded x s max m pos fits = rw m (
  get-evict-put max x.session_id x s.sessions pos fits,
  length-evict_to max (put x.session_id x s.sessions),
  evict_to_lem max (put x.session_id x s.sessions),
)
