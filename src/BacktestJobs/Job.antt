-- ===== src/BacktestJobs/Job.antt =====
-- `BacktestJob` of packages/backtest_jobs/models.py, and the payload that packages/backtest_jobs/
-- service.py makes of a request and of a job.
use nautilus_builder.Prelude.{
  Bool, Option, none, some, String, List, [], ◌∷◌, ◌==◌, string_eq, if◌then◌else◌,
}
use nautilus_builder.Prelude.Dict.{Dict, get}

pub record BacktestJob : Type 0 where
  pub job_id : String
  pub status : String
  pub stage : String
  pub created_by : String
  pub created_at : String
  pub updated_at : String
  pub strategy_spec_version_id : String
  pub adapter_profile_id : String
  pub instrument_id : String
  pub data_range : String
  pub worker_id : String
  pub result_artifact_refs : Dict String String
  pub event_stream_id : String
  pub user_id : String
  pub project_id : String
  pub dataset_id : String
  pub catalog_path : Option String
  pub data_type : String
  pub timeframe : String
  pub market_type : String
  pub compile_hash : String
  pub validation_report_id : String
  pub compile_artifact_id : Option String
  pub cancel_requested : Bool

-- The dictionary that `_canonical_payload` returns, of a payload whose values are texts, as
-- `create_job` declares it.
pub record Canonical : Type 0 where
  pub strategy_spec_version_id : String
  pub adapter_profile_id : String
  pub instrument_id : String
  pub compile_hash : String
  pub validation_report_id : String
  pub compile_artifact_id : String
  pub created_by : String
  pub data_range : String
  pub user_id : String
  pub project_id : String
  pub dataset_id : String
  pub catalog_path : String
  pub data_type : String
  pub timeframe : String
  pub market_type : String

-- `str(payload.get(k) or payload.get(l) or … or default)`
unfoldable pub first_given : List String → String → Dict String String → String
first_given [] default d = default
first_given (k ∷ ks) default d =
    let rest = first_given ks default d in
    elim (get k d) [ none ↦ rest | some s ↦ if s == "" then rest else s ]

unfoldable pub canonical_payload : Dict String String → Canonical
unfolding first_given
canonical_payload d = record {
  strategy_spec_version_id =
      first_given
        ("strategy_spec_version_id" ∷ "strategy_spec_version" ∷ "strategy_version_id" ∷ []) "" d;
  adapter_profile_id = first_given ("adapter_profile_id" ∷ "adapter_id" ∷ []) "" d;
  instrument_id = first_given ("instrument_id" ∷ []) "" d;
  compile_hash = first_given ("compile_hash" ∷ "compile_artifact_id" ∷ []) "" d;
  validation_report_id = first_given ("validation_report_id" ∷ []) "" d;
  compile_artifact_id = first_given ("compile_artifact_id" ∷ []) "" d;
  created_by = first_given ("created_by" ∷ []) "builder_api" d;
  data_range = first_given ("data_range" ∷ []) "unspecified" d;
  user_id = first_given ("user_id" ∷ []) "system" d;
  project_id = first_given ("project_id" ∷ []) "default" d;
  dataset_id = first_given ("dataset_id" ∷ []) "unspecified" d;
  catalog_path = first_given ("catalog_path" ∷ []) "" d;
  data_type = first_given ("data_type" ∷ []) "unspecified" d;
  timeframe = first_given ("timeframe" ∷ []) "unspecified" d;
  market_type = first_given ("market_type" ∷ []) "unspecified" d;
}

-- `json.dumps` with sorted keys: equal texts for equal entries, and for no others.
abbrev pub Key : Type 0
Key = List (String × String)

abbrev pub dumps : Canonical → Key
dumps c =
    ("adapter_profile_id", c.adapter_profile_id)
    ∷ ("catalog_path", c.catalog_path)
    ∷ ("compile_artifact_id", c.compile_artifact_id)
    ∷ ("compile_hash", c.compile_hash)
    ∷ ("created_by", c.created_by)
    ∷ ("data_range", c.data_range)
    ∷ ("data_type", c.data_type)
    ∷ ("dataset_id", c.dataset_id)
    ∷ ("instrument_id", c.instrument_id)
    ∷ ("market_type", c.market_type)
    ∷ ("project_id", c.project_id)
    ∷ ("strategy_spec_version_id", c.strategy_spec_version_id)
    ∷ ("timeframe", c.timeframe)
    ∷ ("user_id", c.user_id)
    ∷ ("validation_report_id", c.validation_report_id)
    ∷ []

unfoldable pub make_key : Dict String String → Key
unfolding canonical_payload
make_key d = dumps (canonical_payload d)

-- `s or None` and back
abbrev pub or_none : String → Option String
or_none s = if s == "" then none else some s

abbrev pub or_empty : Option String → String
or_empty none = ""
or_empty (some s) = s

unfoldable pub payload_from_job : BacktestJob → Dict String String
payload_from_job job =
    ("strategy_spec_version_id", job.strategy_spec_version_id)
    ∷ ("adapter_profile_id", job.adapter_profile_id)
    ∷ ("instrument_id", job.instrument_id)
    ∷ ("compile_hash", job.compile_hash)
    ∷ ("validation_report_id", job.validation_report_id)
    ∷ ("compile_artifact_id", or_empty job.compile_artifact_id)
    ∷ ("created_by", job.created_by)
    ∷ ("data_range", job.data_range)
    ∷ ("user_id", job.user_id)
    ∷ ("project_id", job.project_id)
    ∷ ("dataset_id", job.dataset_id)
    ∷ ("catalog_path", or_empty job.catalog_path)
    ∷ ("data_type", job.data_type)
    ∷ ("timeframe", job.timeframe)
    ∷ ("market_type", job.market_type)
    ∷ []

abbrev pub job_key : BacktestJob → Key
job_key job = make_key (payload_from_job job)
