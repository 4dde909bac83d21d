-- ===== src/BacktestJobs/Scope.antt =====
-- The scope of a project in packages/backtest_jobs/service.py.
use nautilus_builder.Prelude.{
  Bool, true, false, ◌&&◌, Option, some, String, List, [], ◌∷◌, err, ◌==◌, string_eq, select, All,
  ◌≡◌, refl, arith, eq_iff,
}
use nautilus_builder.Prelude.Dict.{Dict, get, values}
use nautilus_builder.Auth.Models.{UserProjectContext}
use nautilus_builder.Auth.Policy.{assert_same_project}
use nautilus_builder.BacktestJobs.Job.{BacktestJob}
use nautilus_builder.BacktestJobs.Service.{
  outside_scope, BacktestJobService, check_scope, get_job, transition_job, request_cancel,
  insert_job, sort_jobs, in_context, list_jobs_for_strategy,
}

check_scope-outside :
    (c : UserProjectContext) (j : BacktestJob)
    → in_context (some c) j ≡ false
    → check_scope (some c) j ≡ err outside_scope
unfolding in_context check_scope assert_same_project
check_scope-outside c j h = ground (
  arith,
  eq_iff c.user_id j.user_id,
  eq_iff j.user_id c.user_id,
  eq_iff c.project_id j.project_id,
  eq_iff j.project_id c.project_id,
)

get_job-outside :
    (id : String) (c : UserProjectContext) (s : BacktestJobService) (j : BacktestJob)
    → get id s.jobs_by_id ≡ some j
    → in_context (some c) j ≡ false
    → get_job id (some c) s ≡ err outside_scope
unfolding get_job
get_job-outside id c s j found h = rw (found, get_job) (rw (check_scope-outside c j h) refl)

-- A job of another user or another project can be neither read, nor moved to another stage, nor
-- cancelled: all three raise.
pub outside_raises :
    (now id stage : String) (worker : Option String) (refs : Option (Dict String String))
    (c : UserProjectContext) (s : BacktestJobService) (j : BacktestJob)
    → get id s.jobs_by_id ≡ some j
    → in_context (some c) j ≡ false
    → (get_job id (some c) s ≡ err outside_scope)
      × (transition_job now id stage worker refs (some c) s ≡ err outside_scope)
      × (request_cancel now id (some c) s ≡ err outside_scope)
unfolding transition_job request_cancel
outside_raises now id stage worker refs c s j found h =
    let raised = get_job-outside id c s j found h in
    (raised, rw (raised, transition_job) refl, rw (raised, request_cancel) refl)

-- The jobs of a list that satisfy a test.
abbrev Passes : (BacktestJob → Bool) → List BacktestJob → Type 0
Passes p js = All (λ j. p j ≡ true) js

-- The jobs of a version that a context may see.
abbrev is_listed : String → Option UserProjectContext → BacktestJob → Bool
is_listed version context j = j.strategy_spec_version_id == version && in_context context j

select-Passes :
    (version : String) (context : Option UserProjectContext) (js : List BacktestJob)
    → Passes (is_listed version context) (
        select
          (in_context context)
          (select (λ (j : BacktestJob). j.strategy_spec_version_id == version) js))
select-Passes version context [] = tt
select-Passes version context (j ∷ js) = ground (arith, select-Passes version context js)

split-Passes :
    (version : String) (context : Option UserProjectContext) (js : List BacktestJob)
    → Passes (is_listed version context) js
    → All
        (λ (j : BacktestJob).
          (j.strategy_spec_version_id ≡ version) × (in_context context j ≡ true))
        js
split-Passes version context [] h = tt
split-Passes version context (j ∷ js) h = (
  (ground (arith, eq_iff j.strategy_spec_version_id version), ground arith),
  split-Passes version context js h.1,
)

module _ (p : BacktestJob → Bool) where
  insert_job-Passes :
      (j : BacktestJob) (js : List BacktestJob)
      → p j ≡ true
      → Passes p js
      → Passes p (insert_job j js)
  unfolding insert_job
  insert_job-Passes j [] h t = (h, tt)
  insert_job-Passes j (i ∷ js) h t = ground (arith, insert_job-Passes j js h t.1)

  sort_jobs-Passes : (js : List BacktestJob) → Passes p js → Passes p (sort_jobs js)
  unfolding sort_jobs
  sort_jobs-Passes [] h = tt
  sort_jobs-Passes (j ∷ js) h = insert_job-Passes j (sort_jobs js) h.0 (sort_jobs-Passes js h.1)

-- The jobs that are listed for a version are jobs of that version, and of the project that asks.
pub listed_in_scope :
    (version : String) (context : Option UserProjectContext) (s : BacktestJobService)
    → All
        (λ (j : BacktestJob).
          (j.strategy_spec_version_id ≡ version) × (in_context context j ≡ true))
        (list_jobs_for_strategy version context s)
unfolding list_jobs_for_strategy
listed_in_scope version context s =
    let js =
      select (in_context context) (
        select (λ (j : BacktestJob). j.strategy_spec_version_id == version)
          (values s.jobs_by_id)) in
    split-Passes version context (sort_jobs js) (
      sort_jobs-Passes (is_listed version context) js
        (select-Passes version context (values s.jobs_by_id)))
