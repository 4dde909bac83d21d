-- ===== src/Workflow/Follows.antt =====
-- The read model of packages/workflow_spine/projections.py on the events of the workflow service.
use mathlib.Core.Path.{subst}
use nautilus_builder.Prelude.{
  Bool, ◌&&◌, ◌||◌, Option, none, some, String, List, [], ◌∷◌, ◌++◌, ok, ◌>>=◌, or_raise, any, All,
  ◌≡◌, refl, sym, ap, ◌∙◌, arith, ◌==◌, string_eq, optional_eq, eq_iff, if◌then◌else◌, Bool-cases,
  inl, inr,
}
use nautilus_builder.Prelude.Dict.{get, put}
use nautilus_builder.Prelude.Dict.Laws.{get-put}
use nautilus_builder.Workflow.Models.{WorkflowEvent}
use nautilus_builder.Workflow.Repository.{Streams, events_for}
use nautilus_builder.Workflow.Service.{
  WorkflowService, new_service, versioned, enqueued, result_completed, suggestion_created,
}
use nautilus_builder.Workflow.Projection.{
  ReadModel, LineageState, advance, overlay, state_for, apply, apply_all,
}
use nautilus_builder.Workflow.Models.{no_lineage}
use nautilus_builder.Workflow.Calls.{
  Call, call, run, Moved, refused, skipped, by_create, by_complete, by_suggest, call-Moved,
  announced, workflow_events, test_jobs,
}

abbrev NamesLineage : WorkflowEvent → Type 0
NamesLineage e = (lineage : String) × (e.strategy_lineage_id ≡ some lineage)

abbrev EventsNamed : WorkflowService → Type 0
EventsNamed s = All NamesLineage (events_for workflow_events s.stream)

All-append {ℓ κ} :
    {A : Type ℓ} (P : A → Type κ) (xs ys : List A) → All P xs → All P ys → All P (xs ++ ys)
All-append P [] ys p q = q
All-append P (x ∷ xs) ys p q = (p.0, All-append P xs ys p.1 q)

announced_named :
    (e : WorkflowEvent) (s : Streams)
    → NamesLineage e
    → All NamesLineage (events_for workflow_events s)
    → All NamesLineage (events_for workflow_events (announced workflow_events e s))
unfolding events_for
announced_named e s h a =
    let events = events_for workflow_events s in
    subst (λ o. All NamesLineage (elim o as (λ _. List WorkflowEvent) [ none ↦ [] | some es ↦ es ]))
      (sym (get-put workflow_events workflow_events (events ++ e ∷ []) s))
      (All-append NamesLineage events (e ∷ []) a (h, tt))

-- The other stream leaves the events alone.
announced_elsewhere :
    (e : WorkflowEvent) (s : Streams)
    → events_for workflow_events (announced test_jobs e s) ≡ events_for workflow_events s
unfolding events_for
announced_elsewhere e s =
    rw (get-put test_jobs workflow_events (events_for test_jobs s ++ e ∷ []) s, events_for) refl

Moved-EventsNamed : {s u : WorkflowService} → Moved s u → EventsNamed s → EventsNamed u
unfolding versioned result_completed suggestion_created
Moved-EventsNamed (refused e) h = subst EventsNamed (sym e) h
Moved-EventsNamed {s} (skipped e) h = subst EventsNamed (sym e) h
Moved-EventsNamed {s} (by_create t e) h =
    let first = announced workflow_events (versioned t s.counter) s.stream in
    subst EventsNamed (sym e) (
      subst (All NamesLineage) (sym (announced_elsewhere (enqueued t s.counter) first))
        (announced_named (versioned t s.counter) s.stream (_, refl) h))
Moved-EventsNamed {s} (by_complete c x made e) h =
    subst EventsNamed (sym e) (announced_named (result_completed x) s.stream (_, refl) h)
Moved-EventsNamed {s} (by_suggest a x made e) h =
    subst EventsNamed (sym e) (announced_named (suggestion_created x) s.stream (_, refl) h)

run-EventsNamed : (cs : List Call) (s : WorkflowService) → EventsNamed s → EventsNamed (run cs s)
unfolding run
run-EventsNamed [] s h = h
run-EventsNamed (c ∷ cs) s h = run-EventsNamed cs (call c s) (Moved-EventsNamed (call-Moved c s) h)

abbrev pub given_or : Option String → Option String → Option String
given_or before none = before
given_or before (some v) = some v

module _ (lineage : String) where
  -- An event of the lineage, and one of a kind.
  abbrev pub concerns : WorkflowEvent → Bool
  concerns e = e.strategy_lineage_id == some lineage

  abbrev pub tells : String → WorkflowEvent → Bool
  tells kind e = concerns e && e.event == kind

  -- The name of the lineage's last event, or the one before them all.
  abbrev pub last_event : List WorkflowEvent → Option String → Option String
  last_event [] before = before
  last_event (e ∷ es) before = last_event es (if concerns e then some e.event else before)

  -- The last value of a field that the lineage's events give, or the one before them all.
  abbrev pub last_given :
      (WorkflowEvent → Option String) → List WorkflowEvent → Option String → Option String
  last_given field [] before = before
  last_given field (e ∷ es) before =
      last_given field es (if concerns e then given_or before (field e) else before)

  -- What the events say of the lineage, where it started from `st`.
  abbrev Tells : List WorkflowEvent → LineageState → LineageState → Type 0
  Tells es st st' =
      (st'.result_completed ≡ (any (tells "result.completed") es || st.result_completed))
      × (st'.suggestion_created ≡ (any (tells "suggestion.created") es || st.suggestion_created))
      × (st'.latest_event ≡ last_event es st.latest_event)
      × (st'.project_id ≡ last_given (λ e. some e.project_id) es st.project_id)
      × (st'.strategy_id ≡ last_given (λ e. e.strategy_id) es st.strategy_id)
      × (st'.strategy_version_id
          ≡ last_given (λ e. e.strategy_version_id) es st.strategy_version_id)
      × (st'.test_job_id ≡ last_given (λ e. e.test_job_id) es st.test_job_id)
      × (st'.result_id ≡ last_given (λ e. e.result_id) es st.result_id)
      × (st'.ai_thread_id ≡ last_given (λ e. e.ai_thread_id) es st.ai_thread_id)
      × (st'.improvement_cycle_id
          ≡ last_given (λ e. e.improvement_cycle_id) es st.improvement_cycle_id)

  state_for-put :
      (l : String) (st : LineageState) (m : ReadModel)
      → state_for lineage (put l st m) ≡ (if l == lineage then st else state_for lineage m)
  unfolding state_for
  state_for-put l st m = rw (get-put l lineage st m, state_for) (ground arith)

  advance-Tells :
      (e : WorkflowEvent) (l : String) (st old : LineageState)
      → e.strategy_lineage_id ≡ some l
      → (l ≡ lineage → st ≡ old)
      → Tells (e ∷ []) old (if l == lineage then advance e st else old)
  unfolding advance overlay
  advance-Tells e l st old named same = elim (Bool-cases (l == lineage)) [
    | inl here ↦
        rw (named, concerns) (rw here (rw (same ((eq_iff l lineage).0 here)) (ground arith)))
    | inr other ↦ rw (named, concerns) (rw other (ground arith))
  ]

  Tells-trans :
      (e : WorkflowEvent) (es : List WorkflowEvent) (a b c : LineageState)
      → Tells (e ∷ []) a b
      → Tells es b c
      → Tells (e ∷ es) a c
  Tells-trans e es a b c p q = (
    ground arith,
    ground arith,
    q.2 ∙ ap (last_event es) p.2,
    q.3 ∙ ap (last_given (λ e. some e.project_id) es) p.3,
    q.4 ∙ ap (last_given (λ e. e.strategy_id) es) p.4,
    q.5 ∙ ap (last_given (λ e. e.strategy_version_id) es) p.5,
    q.6 ∙ ap (last_given (λ e. e.test_job_id) es) p.6,
    q.7 ∙ ap (last_given (λ e. e.result_id) es) p.7,
    q.8 ∙ ap (last_given (λ e. e.ai_thread_id) es) p.8,
    q.9 ∙ ap (last_given (λ e. e.improvement_cycle_id) es) p.9,
  )

  apply-named :
      (e : WorkflowEvent) (l : String) (m : ReadModel)
      → e.strategy_lineage_id ≡ some l
      → apply e m ≡ ok (put l (advance e (state_for l m)) m)
  unfolding apply
  apply-named e l m named i = do
    k ← or_raise (named i) no_lineage
    ok (put k (advance e (state_for k m)) m)

  apply_all-Tells :
      (es : List WorkflowEvent) (m : ReadModel)
      → All NamesLineage es
      → (m' : ReadModel) × (apply_all es m ≡ ok m')
        × (Tells es (state_for lineage m) (state_for lineage m'))
  unfolding apply_all
  apply_all-Tells [] m h = (m, refl, (refl, refl, refl, refl, refl, refl, refl, refl, refl, refl))
  apply_all-Tells (e ∷ es) m ((l, named), h) =
      let next = put l (advance e (state_for l m)) m in
      let (m', applied, told) = apply_all-Tells es next h in
      let first =
        advance-Tells e l (state_for l m) (state_for lineage m) named
          (λ p. ap (λ k. state_for k m) p) in
      let here = state_for-put l (advance e (state_for l m)) m in
      (
        m',
        rw (apply-named e l m named, apply_all) applied,
        Tells-trans e es (state_for lineage m) (state_for lineage next) (state_for lineage m')
            (subst (Tells (e ∷ []) (state_for lineage m)) (sym here) first) told,
      )

-- The events that the service has published on its workflow stream.
abbrev pub published_events : List Call → List WorkflowEvent
published_events cs = events_for workflow_events (run cs new_service).stream

-- The read model takes in every event that the workflow service has published on its workflow
-- stream, whatever was called, and then shows of any lineage: a completed result exactly if such an
-- event was published there for that lineage, a created suggestion likewise, as the latest event the
-- last one published for it, if there is one, and for each of its other fields the last value that an
-- event of the lineage gave.
pub read_model_follows :
    (cs : List Call) (lineage : String)
    → (m : ReadModel) × (apply_all (published_events cs) [] ≡ ok m)
      × ((state_for lineage m).result_completed
          ≡ any (tells lineage "result.completed") (published_events cs))
      × ((state_for lineage m).suggestion_created
          ≡ any (tells lineage "suggestion.created") (published_events cs))
      × ((state_for lineage m).latest_event ≡ last_event lineage (published_events cs) none)
      × ((state_for lineage m).project_id
          ≡ last_given lineage (λ e. some e.project_id) (published_events cs) none)
      × ((state_for lineage m).strategy_id
          ≡ last_given lineage (λ e. e.strategy_id) (published_events cs) none)
      × ((state_for lineage m).strategy_version_id
          ≡ last_given lineage (λ e. e.strategy_version_id) (published_events cs) none)
      × ((state_for lineage m).test_job_id
          ≡ last_given lineage (λ e. e.test_job_id) (published_events cs) none)
      × ((state_for lineage m).result_id
          ≡ last_given lineage (λ e. e.result_id) (published_events cs) none)
      × ((state_for lineage m).ai_thread_id
          ≡ last_given lineage (λ e. e.ai_thread_id) (published_events cs) none)
      × ((state_for lineage m).improvement_cycle_id
          ≡ last_given lineage (λ e. e.improvement_cycle_id) (published_events cs) none)
unfolding state_for events_for get
read_model_follows cs lineage =
    let (m, applied, told) =
      apply_all-Tells lineage (published_events cs) [] (run-EventsNamed cs new_service tt) in
    (
      m,
      applied,
      ground arith,
      ground arith,
      told.2,
      told.3,
      told.4,
      told.5,
      told.6,
      told.7,
      told.8,
      told.9,
    )
