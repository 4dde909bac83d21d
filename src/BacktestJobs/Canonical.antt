-- ===== src/BacktestJobs/Canonical.antt =====
-- The key of a job of packages/backtest_jobs/service.py is the key of the request it was made for.
use nautilus_builder.Prelude.{
  String, List, [], ◌∷◌, ◌==◌, string_eq, if◌then◌else◌, ◌≡◌, arith, eq_iff,
}
use nautilus_builder.Prelude.Dict.{Dict, get}
use nautilus_builder.BacktestJobs.Job.{
  first_given, canonical_payload, dumps, make_key, or_none, or_empty, payload_from_job, job_key,
}
use nautilus_builder.BacktestJobs.Service.{new_job}

-- `s or default`
abbrev or_text : String → String → String
or_text s default = if s == "" then default else s

or_text_self : (s : String) → or_text s "" ≡ s
or_text_self s = ground (arith, eq_iff s "")

or_none_self : (s : String) → or_text (or_empty (or_none s)) "" ≡ s
or_none_self s = ground (arith, eq_iff s "")

-- A field with a default of its own is never empty.
first_given_idempotent :
    (ks : List String) (default : String) (d : Dict String String)
    → or_text (first_given ks default d) default ≡ first_given ks default d
unfolding first_given
first_given_idempotent [] default d = ground arith
first_given_idempotent (k ∷ ks) default d = ground (arith, first_given_idempotent ks default d)

-- The compile hash falls back on the compile artifact, again and again.
compile_hash_idempotent :
    (d : Dict String String)
    → or_text
        (first_given ("compile_hash" ∷ "compile_artifact_id" ∷ []) "" d)
        (or_text (or_empty (or_none (first_given ("compile_artifact_id" ∷ []) "" d))) "")
      ≡ first_given ("compile_hash" ∷ "compile_artifact_id" ∷ []) "" d
unfolding first_given
compile_hash_idempotent d = ground (
  arith,
  eq_iff (first_given ("compile_artifact_id" ∷ []) "" d) "",
  eq_iff (first_given ("compile_hash" ∷ "compile_artifact_id" ∷ []) "" d) "",
)

pub job_key-new_job :
    (now job_id : String) (d : Dict String String)
    → job_key (new_job now job_id (canonical_payload d)) ≡ make_key d
unfolding make_key canonical_payload payload_from_job new_job get first_given
job_key-new_job now job_id d =
    let c = canonical_payload d in
    λ i. dumps (record {
      strategy_spec_version_id =
          first_given_idempotent
            ("strategy_spec_version_id" ∷ "strategy_spec_version" ∷ "strategy_version_id" ∷ []) "" d
            i;
      adapter_profile_id = first_given_idempotent ("adapter_profile_id" ∷ "adapter_id" ∷ []) "" d i;
      instrument_id = first_given_idempotent ("instrument_id" ∷ []) "" d i;
      compile_hash = compile_hash_idempotent d i;
      validation_report_id = first_given_idempotent ("validation_report_id" ∷ []) "" d i;
      compile_artifact_id = or_none_self c.compile_artifact_id i;
      created_by = first_given_idempotent ("created_by" ∷ []) "builder_api" d i;
      data_range = first_given_idempotent ("data_range" ∷ []) "unspecified" d i;
      user_id = first_given_idempotent ("user_id" ∷ []) "system" d i;
      project_id = first_given_idempotent ("project_id" ∷ []) "default" d i;
      dataset_id = first_given_idempotent ("dataset_id" ∷ []) "unspecified" d i;
      catalog_path = or_none_self c.catalog_path i;
      data_type = first_given_idempotent ("data_type" ∷ []) "unspecified" d i;
      timeframe = first_given_idempotent ("timeframe" ∷ []) "unspecified" d i;
      market_type = first_given_idempotent ("market_type" ∷ []) "unspecified" d i;
    })
