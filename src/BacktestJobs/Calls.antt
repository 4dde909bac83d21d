-- ===== src/BacktestJobs/Calls.antt =====
-- Sequences of calls of `BacktestJobService` of packages/backtest_jobs/service.py, and the links of the
-- two dictionaries in every state that they reach.
use mathlib.Core.Path.{subst}
use nautilus_builder.Prelude.{
  Bool, true, ◌&&◌, Option, none, some, String, List, [], ◌∷◌, Result, ok, err, or_raise, string_eq,
  list_eq, pair_eq, ◌≡◌, ◌∙◌, refl, sym, ap, arith, >>=-eq-ok, or_raise-eq-ok, Option-cases,
  Result-cases, inl, inr,
}
use nautilus_builder.Prelude.Dict.{Dict, get}
use nautilus_builder.Auth.Models.{UserProjectContext}
use nautilus_builder.BacktestJobs.Job.{
  BacktestJob, canonical_payload, Key, make_key, payload_from_job,
}
use nautilus_builder.BacktestJobs.Canonical.{job_key-new_job}
use nautilus_builder.BacktestJobs.Service.{
  Error, BacktestJobService, store, make_job_id, new_job, create_job, check_scope, get_job,
  updated_job, update, transition_job, request_cancel, or_else,
}
use nautilus_builder.BacktestJobs.Links.{IsLinked, HasApart, store-IsLinked}

pub data Call : Type 0 where
  create : String → Dict String String → Call
  transition :
      String
      → String
      → String
      → Option String
      → Option (Dict String String)
      → Option UserProjectContext
      → Call
  cancel : String → String → Option UserProjectContext → Call

-- A call that raises changes nothing.
abbrev pub after :
    BacktestJobService → Result Error (BacktestJob × BacktestJobService) → BacktestJobService
after s (ok (j, s')) = s'
after s (err e) = s

unfoldable pub call : (Key → String) → Call → BacktestJobService → BacktestJobService
call digest (create now d) s = (create_job digest now d s).1
call digest (transition now id stage worker refs context) s =
    after s (transition_job now id stage worker refs context s)
call digest (cancel now id context) s = after s (request_cancel now id context s)

unfoldable pub run : (Key → String) → List Call → BacktestJobService → BacktestJobService
unfolding call
run digest [] s = s
run digest (c ∷ cs) s = run digest cs (call digest c s)

-- The job that `get_job` returns is the stored one.
pub get_job-stored :
    (id : String) (context : Option UserProjectContext) (s : BacktestJobService) (j : BacktestJob)
    → get_job id context s ≡ ok j
    → get id s.jobs_by_id ≡ some j
unfolding get_job
get_job-stored id context s j h =
    let (i, found, k₁) = >>=-eq-ok (or_raise (get id s.jobs_by_id) _) _ h in
    let (_, _, k₂) = >>=-eq-ok (check_scope context i) _ k₁ in
    or_raise-eq-ok (get id s.jobs_by_id) _ i found ∙ ground arith

pub get_job-found :
    (id : String) (s : BacktestJobService) (j : BacktestJob)
    → get id s.jobs_by_id ≡ some j
    → get_job id none s ≡ ok j
unfolding get_job check_scope
get_job-found id s j found = rw (found, get_job) refl

module _ (digest : Key → String) (now : String) (d : Dict String String)
    (s : BacktestJobService) where
  pub create_job-unknown :
      get (make_key d) s.jobs_by_key ≡ none
      → create_job digest now d s ≡ (
        new_job now (make_job_id digest (make_key d)) (canonical_payload d),
        store (make_key d) (new_job now (make_job_id digest (make_key d)) (canonical_payload d)) s,
      )
  unfolding create_job
  create_job-unknown unknown = rw (unknown, create_job) refl

  pub create_job-known :
      (j : BacktestJob)
      → get (make_key d) s.jobs_by_key ≡ some j
      → create_job digest now d s ≡ (j, s)
  unfolding create_job
  create_job-known j found = rw (found, create_job) refl

-- What `transition_job` and `request_cancel` do to the state: nothing, or one update of a job that
-- is stored under the name.
pub data Change (s : BacktestJobService) : BacktestJobService → Type 0 where
  none_made : Change s s
  made :
      (now stage worker : String) (refs : Dict String String) (cancelled : Bool) (id : String)
      (j : BacktestJob)
      → get id s.jobs_by_id ≡ some j
      → Change s (update id (updated_job now stage worker refs cancelled j) s)

pub transition_job-Change :
    (now id stage : String) (worker : Option String) (refs : Option (Dict String String))
    (context : Option UserProjectContext) (s : BacktestJobService)
    → Change s (after s (transition_job now id stage worker refs context s))
unfolding transition_job
transition_job-Change now id stage worker refs context s =
    elim (Result-cases (get_job id context s)) [
      | inl (j, found) ↦
          rw (found, transition_job)
            (made now stage (or_else worker j.worker_id) (or_else refs j.result_artifact_refs)
              j.cancel_requested id j (get_job-stored id context s j found))
      | inr (e, raised) ↦ rw (raised, transition_job) none_made
    ]

pub request_cancel-Change :
    (now id : String) (context : Option UserProjectContext) (s : BacktestJobService)
    → Change s (after s (request_cancel now id context s))
unfolding request_cancel
request_cancel-Change now id context s = elim (Result-cases (get_job id context s)) [
  | inl (j, found) ↦
      rw (found, request_cancel)
        (made now "CANCEL_REQUESTED" j.worker_id j.result_artifact_refs true id j
          (get_job-stored id context s j found))
  | inr (e, raised) ↦ rw (raised, request_cancel) none_made
]

-- A request of a listed key.
abbrev pub asks : (Key → Bool) → Call → Bool
asks listed (create now d) = listed (make_key d)
asks listed (transition now id stage worker refs context) = true
asks listed (cancel now id context) = true

abbrev pub all_ask : (Key → Bool) → List Call → Bool
all_ask listed [] = true
all_ask listed (c ∷ cs) = asks listed c && all_ask listed cs

module _ (digest : Key → String) (listed : Key → Bool) (apart : HasApart digest listed) where
  pub create_job-IsLinked :
      (now : String) (d : Dict String String) (s : BacktestJobService)
      → listed (make_key d) ≡ true
      → IsLinked digest listed s
      → IsLinked digest listed (create_job digest now d s).1
  unfolding new_job
  create_job-IsLinked now d s known h = elim (Option-cases (get (make_key d) s.jobs_by_key)) [
    | inl unknown ↦
        let id = make_job_id digest (make_key d) in
        let j = new_job now id (canonical_payload d) in
        let own = job_key-new_job now id d in
        subst (λ (q : BacktestJob × BacktestJobService). IsLinked digest listed q.1)
          (sym (create_job-unknown digest now d s unknown))
          (subst (λ k. IsLinked digest listed (store k j s)) own
            (store-IsLinked digest listed apart s j h
              (ap (make_job_id digest) (sym own), ap listed own ∙ known)))
    | inr (j, found) ↦
        subst (λ (q : BacktestJob × BacktestJobService). IsLinked digest listed q.1)
          (sym (create_job-known digest now d s j found)) h
  ]

  update-IsLinked :
      (now stage worker : String) (refs : Dict String String) (cancelled : Bool) (id : String)
      (j : BacktestJob) (s : BacktestJobService)
      → IsLinked digest listed s
      → get id s.jobs_by_id ≡ some j
      → IsLinked digest listed (update id (updated_job now stage worker refs cancelled j) s)
  unfolding update store payload_from_job
  update-IsLinked now stage worker refs cancelled id j s h found =
      let (name, named, _) = h.1 id j found in
      let j' = updated_job now stage worker refs cancelled j in
      subst (λ i. IsLinked digest listed (update i j' s)) name
        (store-IsLinked digest listed apart s j' h named)

  Change-IsLinked :
      (s s' : BacktestJobService)
      → IsLinked digest listed s
      → Change s s'
      → IsLinked digest listed s'
  Change-IsLinked s _ h none_made = h
  Change-IsLinked s _ h (made now stage worker refs cancelled id j found) =
      update-IsLinked now stage worker refs cancelled id j s h found

  call-IsLinked :
      (c : Call) (s : BacktestJobService)
      → asks listed c ≡ true
      → IsLinked digest listed s
      → IsLinked digest listed (call digest c s)
  unfolding call
  call-IsLinked (create now d) s a h = create_job-IsLinked now d s a h
  call-IsLinked (transition now id stage worker refs context) s a h =
      Change-IsLinked s (after s (transition_job now id stage worker refs context s)) h
        (transition_job-Change now id stage worker refs context s)
  call-IsLinked (cancel now id context) s a h =
      Change-IsLinked s (after s (request_cancel now id context s)) h
        (request_cancel-Change now id context s)

  pub run-IsLinked :
      (cs : List Call) (s : BacktestJobService)
      → all_ask listed cs ≡ true
      → IsLinked digest listed s
      → IsLinked digest listed (run digest cs s)
  unfolding run
  run-IsLinked [] s a h = h
  run-IsLinked (c ∷ cs) s a h =
      run-IsLinked cs (call digest c s) (ground arith) (call-IsLinked c s (ground arith) h)
