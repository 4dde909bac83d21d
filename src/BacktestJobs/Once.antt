-- ===== src/BacktestJobs/Once.antt =====
-- A request of packages/backtest_jobs/service.py has one job, whatever happens to the job.
use mathlib.Core.Path.{subst}
use nautilus_builder.Prelude.{
  Bool, true, none, String, List, [], ◌∷◌, ok, string_eq, list_eq, pair_eq, ◌≡◌, ◌∙◌, refl, sym, ap,
  Option-cases, inl, inr,
}
use nautilus_builder.Prelude.Dict.{Dict, get}
use nautilus_builder.Prelude.Dict.Laws.{known, known-get, known-put, known-put_self}
use nautilus_builder.BacktestJobs.Job.{BacktestJob, canonical_payload, Key, make_key, job_key}
use nautilus_builder.BacktestJobs.Service.{
  BacktestJobService, new, store, make_job_id, new_job, create_job, get_job, updated_job, update,
  transition_job, request_cancel,
}
use nautilus_builder.BacktestJobs.Links.{IsLinked, HasApart, new-IsLinked}
use nautilus_builder.BacktestJobs.Calls.{
  Call, create, transition, cancel, after, call, run, Change, none_made, made, get_job-found,
  create_job-unknown, create_job-known, transition_job-Change, request_cancel-Change,
  create_job-IsLinked, run-IsLinked, all_ask,
}

-- A key that has a job keeps having one.
module _ (digest : Key → String) (k : Key) where
  known-Change :
      (s s' : BacktestJobService)
      → known k s.jobs_by_key ≡ true
      → Change s s'
      → known k s'.jobs_by_key ≡ true
  unfolding update
  known-Change s _ h none_made = h
  known-Change s _ h (made now stage worker refs cancelled id j found) =
      let j' = updated_job now stage worker refs cancelled j in
      known-put (job_key j') k j' s.jobs_by_key h

  known-create_job :
      (now : String) (d : Dict String String) (s : BacktestJobService)
      → known k s.jobs_by_key ≡ true
      → known k (create_job digest now d s).1.jobs_by_key ≡ true
  unfolding store
  known-create_job now d s h = elim (Option-cases (get (make_key d) s.jobs_by_key)) [
    | inl unknown ↦
        let j = new_job now (make_job_id digest (make_key d)) (canonical_payload d) in
        subst (λ (q : BacktestJob × BacktestJobService). known k q.1.jobs_by_key ≡ true)
          (sym (create_job-unknown digest now d s unknown))
          (known-put (make_key d) k j s.jobs_by_key h)
    | inr (j, found) ↦
        subst (λ (q : BacktestJob × BacktestJobService). known k q.1.jobs_by_key ≡ true)
          (sym (create_job-known digest now d s j found)) h
  ]

  known-call :
      (c : Call) (s : BacktestJobService)
      → known k s.jobs_by_key ≡ true
      → known k (call digest c s).jobs_by_key ≡ true
  unfolding call
  known-call (create now d) s h = known-create_job now d s h
  known-call (transition now id stage worker refs context) s h =
      known-Change s (after s (transition_job now id stage worker refs context s)) h
        (transition_job-Change now id stage worker refs context s)
  known-call (cancel now id context) s h =
      known-Change s (after s (request_cancel now id context s)) h
        (request_cancel-Change now id context s)

  known-run :
      (cs : List Call) (s : BacktestJobService)
      → known k s.jobs_by_key ≡ true
      → known k (run digest cs s).jobs_by_key ≡ true
  unfolding run
  known-run [] s h = h
  known-run (c ∷ cs) s h = known-run cs (call digest c s) (known-call c s h)

create_job-known_after :
    (digest : Key → String) (now : String) (d : Dict String String) (s : BacktestJobService)
    → known (make_key d) (create_job digest now d s).1.jobs_by_key ≡ true
unfolding store
create_job-known_after digest now d s = elim (Option-cases (get (make_key d) s.jobs_by_key)) [
  | inl unknown ↦
      let j = new_job now (make_job_id digest (make_key d)) (canonical_payload d) in
      subst (λ (q : BacktestJob × BacktestJobService). known (make_key d) q.1.jobs_by_key ≡ true)
        (sym (create_job-unknown digest now d s unknown))
        (known-put_self (make_key d) j s.jobs_by_key)
  | inr (j, found) ↦
      subst (λ (q : BacktestJob × BacktestJobService). known (make_key d) q.1.jobs_by_key ≡ true)
        (sym (create_job-known digest now d s j found)) (rw (found, known) refl)
]

-- The name of the job that a request gets, new or not.
create_job-name :
    (digest : Key → String) (listed : Key → Bool) (now : String) (d : Dict String String)
    (s : BacktestJobService)
    → IsLinked digest listed s
    → (create_job digest now d s).0.job_id ≡ make_job_id digest (make_key d)
unfolding new_job
create_job-name digest listed now d s h = elim (Option-cases (get (make_key d) s.jobs_by_key)) [
  | inl unknown ↦
      ap (λ (q : BacktestJob × BacktestJobService). q.0.job_id)
        (create_job-unknown digest now d s unknown)
  | inr (j, found) ↦
      let (key, named, _) = h.0 (make_key d) j found in
      ap (λ (q : BacktestJob × BacktestJobService). q.0.job_id)
        (create_job-known digest now d s j found)
      ∙ named.0
      ∙ ap (make_job_id digest) key
]

-- A request that is made again, after any calls whatever before and in between, gets the job that it
-- got at first, in the state that those calls left it in: the service does not change, and the job is
-- the one that `get_job` finds under the first job's name. The names, which hold 12 digits of a digest,
-- are relied on to differ for the keys of the requests that were made, which `listed` tells.
pub create_job_once :
    (digest : Key → String) (listed : Key → Bool) (apart : HasApart digest listed)
    (before between : List Call) (now later : String) (d : Dict String String)
    → all_ask listed before ≡ true
    → listed (make_key d) ≡ true
    → all_ask listed between ≡ true
    → let first = create_job digest now d (run digest before new) in
      let s = run digest between first.1 in
      (j : BacktestJob) × (create_job digest later d s ≡ (j, s))
      × (get_job first.0.job_id none s ≡ ok j)
      × (j.job_id ≡ first.0.job_id)
create_job_once digest listed apart before between now later d asked own asked_later =
    let start = run digest before new in
    let linked = run-IsLinked digest listed apart before new asked (new-IsLinked digest listed) in
    let first = create_job digest now d start in
    let s = run digest between first.1 in
    let linked_after =
      run-IsLinked digest listed apart between first.1 asked_later
        (create_job-IsLinked digest listed apart now d start own linked) in
    let has =
      known-run digest (make_key d) between first.1 (create_job-known_after digest now d start) in
    let (j, found) = known-get (make_key d) s.jobs_by_key has in
    let (key, named, there) = linked_after.0 (make_key d) j found in
    let name : j.job_id ≡ first.0.job_id =
      named.0
      ∙ ap (make_job_id digest) key
      ∙ sym (create_job-name digest listed now d start linked) in
    (
      j,
      create_job-known digest later d s j found,
      get_job-found first.0.job_id s j (ap (λ i. get i s.jobs_by_id) (sym name) ∙ there),
      name,
    )
