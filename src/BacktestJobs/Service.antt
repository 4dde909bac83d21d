-- ===== src/BacktestJobs/Service.antt =====
-- `BacktestJobService` of packages/backtest_jobs/service.py. The clock `_now` and the digest of a key
-- (the hexadecimal SHA-256 of its JSON text) are arguments.
use nautilus_builder.Prelude.{
  Bool, true, false, ◌&&◌, Option, none, some, String, List, [], ◌∷◌, Result, ok, err, ◌>>=◌, ◌>>◌,
  or_raise, ◌==◌, string_eq, list_eq, pair_eq, if◌then◌else◌, select,
}
use nautilus_builder.Prelude.Text.{append, at_most, prefix}
use nautilus_builder.Prelude.Dict.{Dict, get, put, values}
use nautilus_builder.Auth.Models.{UserProjectContext}
use nautilus_builder.Auth.Policy.{assert_same_project}
use nautilus_builder.BacktestJobs.Job.{
  BacktestJob, Canonical, canonical_payload, Key, make_key, or_none, job_key,
}

pub data Error : Type 0 where
  unknown_job outside_scope : Error

pub record BacktestJobService : Type 0 where
  pub jobs_by_key : Dict Key BacktestJob
  pub jobs_by_id : Dict String BacktestJob

abbrev pub new : BacktestJobService
new = record { jobs_by_key = []; jobs_by_id = [] }

-- The two assignments that end each operation.
unfoldable pub store : Key → BacktestJob → BacktestJobService → BacktestJobService
store key job s = record {
  jobs_by_key = put key job s.jobs_by_key;
  jobs_by_id = put job.job_id job s.jobs_by_id;
}

-- `f"bt_{digest[:12]}"`
unfoldable pub make_job_id : (Key → String) → Key → String
unfolding prefix
make_job_id digest key = append "bt_" (prefix 12 (digest key))

unfoldable pub event_stream_id : String → String
event_stream_id job_id = append "builder:runtime:" job_id

unfoldable pub new_job : String → String → Canonical → BacktestJob
unfolding event_stream_id
new_job now job_id c = record {
  job_id = job_id;
  status = "CREATED";
  stage = "CREATED";
  created_by = c.created_by;
  created_at = now;
  updated_at = now;
  strategy_spec_version_id = c.strategy_spec_version_id;
  adapter_profile_id = c.adapter_profile_id;
  instrument_id = c.instrument_id;
  data_range = c.data_range;
  worker_id = "unassigned";
  result_artifact_refs = [];
  event_stream_id = event_stream_id job_id;
  user_id = c.user_id;
  project_id = c.project_id;
  dataset_id = c.dataset_id;
  catalog_path = or_none c.catalog_path;
  data_type = c.data_type;
  timeframe = c.timeframe;
  market_type = c.market_type;
  compile_hash = c.compile_hash;
  validation_report_id = c.validation_report_id;
  compile_artifact_id = or_none c.compile_artifact_id;
  cancel_requested = false;
}

unfoldable pub create_job :
    (Key → String)
    → String
    → Dict String String
    → BacktestJobService
    → BacktestJob × BacktestJobService
unfolding make_job_id new_job store make_key
create_job digest now d s = elim (get (make_key d) s.jobs_by_key) [
  | some existing ↦ (existing, s)
  | none ↦
      let job = new_job now (make_job_id digest (make_key d)) (canonical_payload d) in
      (job, store (make_key d) job s)
]

-- The guard of `get_job`, where there is a context.
unfoldable pub check_scope : Option UserProjectContext → BacktestJob → Result Error (Unit {0})
unfolding assert_same_project
check_scope none job = ok tt
check_scope (some c) job =
    elim (assert_same_project c (record {
      artifact_type = "BacktestJob";
      artifact_id = job.job_id;
      user_id = job.user_id;
      project_id = job.project_id;
    })) [ ok u ↦ ok tt | err e ↦ err outside_scope ]

unfoldable pub get_job :
    String → Option UserProjectContext → BacktestJobService → Result Error BacktestJob
unfolding check_scope
get_job job_id context s = do
  job ← or_raise (get job_id s.jobs_by_id) unknown_job
  check_scope context job
  ok job

-- The copy of a job that `transition_job` and `request_cancel` store.
abbrev pub updated_job :
    String → String → String → Dict String String → Bool → BacktestJob → BacktestJob
updated_job now stage worker_id refs cancelled job = record {
  job_id = job.job_id;
  status = stage;
  stage = stage;
  created_by = job.created_by;
  created_at = job.created_at;
  updated_at = now;
  strategy_spec_version_id = job.strategy_spec_version_id;
  adapter_profile_id = job.adapter_profile_id;
  instrument_id = job.instrument_id;
  data_range = job.data_range;
  worker_id = worker_id;
  result_artifact_refs = refs;
  event_stream_id = job.event_stream_id;
  user_id = job.user_id;
  project_id = job.project_id;
  dataset_id = job.dataset_id;
  catalog_path = job.catalog_path;
  data_type = job.data_type;
  timeframe = job.timeframe;
  market_type = job.market_type;
  compile_hash = job.compile_hash;
  validation_report_id = job.validation_report_id;
  compile_artifact_id = job.compile_artifact_id;
  cancel_requested = cancelled;
}

-- `x if x is not None else y`
abbrev pub or_else {ℓ} : {A : Type ℓ} → Option A → A → A
or_else none y = y
or_else (some x) y = x

-- `self._jobs_by_id[job_id] = …`, and the key that the updated job has.
unfoldable pub update : String → BacktestJob → BacktestJobService → BacktestJobService
update job_id job s = record {
  jobs_by_key = put (job_key job) job s.jobs_by_key;
  jobs_by_id = put job_id job s.jobs_by_id;
}

unfoldable pub transition_job :
    String
    → String
    → String
    → Option String
    → Option (Dict String String)
    → Option UserProjectContext
    → BacktestJobService
    → Result Error (BacktestJob × BacktestJobService)
unfolding get_job update
transition_job now job_id stage worker_id refs context s = do
  job ← get_job job_id context s
  let updated =
      updated_job now stage (or_else worker_id job.worker_id)
        (or_else refs job.result_artifact_refs) job.cancel_requested job
  ok (updated, update job_id updated s)

unfoldable pub request_cancel :
    String
    → String
    → Option UserProjectContext
    → BacktestJobService
    → Result Error (BacktestJob × BacktestJobService)
unfolding get_job update
request_cancel now job_id context s = do
  job ← get_job job_id context s
  let updated = updated_job now "CANCEL_REQUESTED" job.worker_id job.result_artifact_refs true job
  ok (updated, update job_id updated s)

unfoldable pub record_frontend_disconnect : String → BacktestJobService → Result Error BacktestJob
record_frontend_disconnect job_id s = or_raise (get job_id s.jobs_by_id) unknown_job

-- `sorted(jobs, key=lambda j: j.created_at)`, which keeps the order of equal times.
unfoldable pub insert_job : BacktestJob → List BacktestJob → List BacktestJob
insert_job j [] = j ∷ []
insert_job j (i ∷ js) =
    let rest = insert_job j js in if at_most j.created_at i.created_at then j ∷ i ∷ js else i ∷ rest

unfoldable pub sort_jobs : List BacktestJob → List BacktestJob
unfolding insert_job
sort_jobs [] = []
sort_jobs (j ∷ js) = insert_job j (sort_jobs js)

unfoldable pub in_context : Option UserProjectContext → BacktestJob → Bool
in_context none job = true
in_context (some c) job = job.user_id == c.user_id && job.project_id == c.project_id

unfoldable pub list_jobs_for_strategy :
    String → Option UserProjectContext → BacktestJobService → List BacktestJob
unfolding sort_jobs in_context
list_jobs_for_strategy version context s = sort_jobs (
    select (in_context context)
      (select (λ (j : BacktestJob). j.strategy_spec_version_id == version) (values s.jobs_by_id)))

-- `jobs[-1] if jobs else None`
unfoldable pub last_job : List BacktestJob → Option BacktestJob
last_job [] = none
last_job (j ∷ []) = some j
last_job (j ∷ i ∷ js) = last_job (i ∷ js)

unfoldable pub get_latest_job_for_strategy :
    String → Option UserProjectContext → BacktestJobService → Option BacktestJob
unfolding list_jobs_for_strategy last_job
get_latest_job_for_strategy version context s = last_job (list_jobs_for_strategy version context s)
