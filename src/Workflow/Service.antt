-- ===== src/Workflow/Service.antt =====
-- `StrategyTestWorkflowService` of packages/workflow_spine/service.py on the repository and the
-- stream in memory. An event's project is a record's, which is not empty, so that the events
-- themselves are always valid.
use nautilus_builder.Prelude.{
  ℕ, suc, Option, none, some, String, List, [], ◌∷◌, Result, ok, err, ◌>>=◌, ◌>>◌, raise_if,
  or_raise, string_eq,
}
use nautilus_builder.Prelude.Text.{append, padded}
use nautilus_builder.Prelude.Dict.{Dict, get}
use nautilus_builder.Workflow.Models.{
  StrategyIdentity, StrategyVersionIdentity, WorkflowEvent, any_empty, WorkflowJobRecord,
  StrategyTestWorkflowOutcome, WorkflowResultRecord, AiSuggestionRecord, WorkflowError,
  invalid_model, unknown_job, unknown_result, unknown_version, missing_thread, missing_cycle,
}
use nautilus_builder.Workflow.Repository.{
  Repository, new_repository, save_strategy, save_version, save_job, save_result,
  save_ai_suggestion, result_of, Streams, publish,
}

pub record WorkflowService : Type 0 where
  pub repository : Repository
  pub stream : Streams
  pub counter : ℕ

abbrev pub new_service : WorkflowService
new_service = record { repository = new_repository; stream = []; counter = 1 }

-- The arguments of `create_version_and_enqueue_test`.
pub record NewTest : Type 0 where
  pub project_id : String
  pub display_name : String
  pub test_type : String
  pub instrument : String
  pub data_source : String
  pub timeframe : String
  pub start : String
  pub end : String
  pub ai_thread_id : Option String
  pub improvement_cycle_id : Option String

-- `f"{prefix}_{seq:03d}"`
unfoldable pub numbered : String → ℕ → String
numbered prefix seq = append prefix (padded 3 seq)

unfoldable pub strategy_of : NewTest → ℕ → StrategyIdentity
strategy_of t seq = record {
  strategy_id = numbered "strat_" seq;
  strategy_lineage_id = numbered "lineage_" seq;
  display_name = t.display_name;
  source_ref = none;
}

unfoldable pub version_of : NewTest → ℕ → StrategyVersionIdentity
version_of t seq = record {
  strategy_id = numbered "strat_" seq;
  strategy_lineage_id = numbered "lineage_" seq;
  strategy_version_id = numbered "sv_" seq;
  parent_version_id = none;
  ai_thread_id = t.ai_thread_id;
  improvement_cycle_id = t.improvement_cycle_id;
  revision_reason = some "initial workflow version";
}

unfoldable pub job_of : NewTest → ℕ → WorkflowJobRecord
job_of t seq = record {
  test_job_id = numbered "job_" seq;
  project_id = t.project_id;
  strategy_version_id = numbered "sv_" seq;
  strategy_lineage_id = numbered "lineage_" seq;
  test_type = t.test_type;
  params = record {
    test_type = t.test_type;
    instrument = t.instrument;
    data_source = t.data_source;
    timeframe = t.timeframe;
    start = t.start;
    end = t.end;
  };
}

-- The texts of the models that `create_version_and_enqueue_test` builds, where a caller gave them.
unfoldable pub given_texts : NewTest → List String
given_texts t =
    t.display_name ∷ t.test_type ∷ t.instrument ∷ t.data_source ∷ t.timeframe ∷ t.start ∷ t.end
    ∷ t.project_id ∷ []

unfoldable pub versioned : NewTest → ℕ → WorkflowEvent
versioned t seq = record {
  event = "strategy.versioned";
  project_id = t.project_id;
  strategy_id = some (numbered "strat_" seq);
  strategy_lineage_id = some (numbered "lineage_" seq);
  strategy_version_id = some (numbered "sv_" seq);
  test_job_id = none;
  result_id = none;
  ai_thread_id = t.ai_thread_id;
  improvement_cycle_id = t.improvement_cycle_id;
}

unfoldable pub enqueued : NewTest → ℕ → WorkflowEvent
unfolding versioned
enqueued t seq = record (versioned t seq) {
  event = "test.enqueued";
  test_job_id = some (numbered "job_" seq);
}

-- What a call returns or raises, and the service after it.
abbrev pub Outcome : Type 0 → Type 0
Outcome A = Result WorkflowError A × WorkflowService

-- A call of `publish`, and what comes after it: where it raises, what was saved stays.
abbrev pub published :
    {A : Type 0}
    → String
    → WorkflowEvent
    → WorkflowService
    → (WorkflowService → Outcome A)
    → Outcome A
published name event s rest = elim (publish name event s.stream) [
  | err e ↦ (err e, s)
  | ok stream ↦ rest (record s { stream = stream })
]

abbrev pub saved_test : NewTest → ℕ → Repository → Repository
saved_test t seq r =
    save_job (job_of t seq) (save_version (version_of t seq) (save_strategy (strategy_of t seq) r))

-- The counter moves on even where a model refuses its texts.
unfoldable pub create_version_and_enqueue_test :
    NewTest → WorkflowService → Outcome StrategyTestWorkflowOutcome
unfolding any_empty given_texts
create_version_and_enqueue_test t s =
    let seq = s.counter in
    let outcome : StrategyTestWorkflowOutcome = record {
      strategy = strategy_of t seq;
      version = version_of t seq;
      job = job_of t seq;
    } in
    elim (raise_if {E = WorkflowError} (any_empty (given_texts t)) invalid_model) [
      | err e ↦ (err e, record s { counter = suc seq })
      | ok _ ↦
          let saved : WorkflowService = record s {
            counter = suc seq;
            repository = saved_test t seq s.repository;
          } in
          published "builder:workflow:events" (versioned t seq) saved
            (λ s1. published "builder:test:jobs" (enqueued t seq) s1 (λ s2. (ok outcome, s2)))
    ]

-- The arguments of `record_result_completed`, and the clock's text.
pub record Completed : Type 0 where
  pub test_job_id : String
  pub result_id : String
  pub metrics : Dict String String
  pub artifact_refs : Dict String String
  pub now : String

unfoldable pub result_record : Completed → WorkflowJobRecord → WorkflowResultRecord
result_record c job = record {
  result_id = c.result_id;
  test_job_id = c.test_job_id;
  project_id = job.project_id;
  strategy_lineage_id = job.strategy_lineage_id;
  strategy_version_id = job.strategy_version_id;
  metrics = c.metrics;
  artifact_refs = c.artifact_refs;
  created_at = c.now;
}

unfoldable pub result_completed : WorkflowResultRecord → WorkflowEvent
result_completed x = record {
  event = "result.completed";
  project_id = x.project_id;
  strategy_id = none;
  strategy_lineage_id = some x.strategy_lineage_id;
  strategy_version_id = some x.strategy_version_id;
  test_job_id = some x.test_job_id;
  result_id = some x.result_id;
  ai_thread_id = none;
  improvement_cycle_id = none;
}

-- The result of a known job: `test_job_id` is a key of the repository, and no key is empty.
unfoldable pub make_result : Completed → Repository → Result WorkflowError WorkflowResultRecord
unfolding any_empty
make_result c r = do
  job ← or_raise (get c.test_job_id r.jobs) unknown_job
  raise_if (any_empty (c.result_id ∷ [])) invalid_model
  ok (result_record c job)

unfoldable pub record_result_completed : Completed → WorkflowService → Outcome WorkflowResultRecord
unfolding make_result
record_result_completed c s = elim (make_result c s.repository) [
  | err e ↦ (err e, s)
  | ok x ↦
      published "builder:workflow:events" (result_completed x)
        (record s { repository = save_result x s.repository }) (λ s1. (ok x, s1))
]

-- The arguments of `record_suggestion_created`.
pub record Suggested : Type 0 where
  pub result_id : String
  pub suggestion_id : String
  pub suggestion_type : String
  pub message : String

unfoldable pub suggestion_record :
    Suggested → WorkflowResultRecord → String → String → AiSuggestionRecord
suggestion_record a x thread cycle = record {
  suggestion_id = a.suggestion_id;
  project_id = x.project_id;
  strategy_lineage_id = x.strategy_lineage_id;
  strategy_version_id = x.strategy_version_id;
  result_id = x.result_id;
  ai_thread_id = thread;
  improvement_cycle_id = cycle;
  suggestion_type = a.suggestion_type;
  message = a.message;
}

unfoldable pub suggestion_created : AiSuggestionRecord → WorkflowEvent
suggestion_created x = record {
  event = "suggestion.created";
  project_id = x.project_id;
  strategy_id = none;
  strategy_lineage_id = some x.strategy_lineage_id;
  strategy_version_id = some x.strategy_version_id;
  test_job_id = none;
  result_id = some x.result_id;
  ai_thread_id = some x.ai_thread_id;
  improvement_cycle_id = some x.improvement_cycle_id;
}

unfoldable pub make_suggestion : Suggested → Repository → Result WorkflowError AiSuggestionRecord
unfolding any_empty result_of
make_suggestion a r = do
  found ← result_of a.result_id none r
  x ← or_raise found unknown_result
  version ← or_raise (get x.strategy_version_id r.versions) unknown_version
  thread ← or_raise version.ai_thread_id missing_thread
  cycle ← or_raise version.improvement_cycle_id missing_cycle
  raise_if (any_empty (a.suggestion_id ∷ thread ∷ cycle ∷ a.suggestion_type ∷ a.message ∷ []))
      invalid_model
  ok (suggestion_record a x thread cycle)

unfoldable pub record_suggestion_created : Suggested → WorkflowService → Outcome AiSuggestionRecord
unfolding make_suggestion
record_suggestion_created a s = elim (make_suggestion a s.repository) [
  | err e ↦ (err e, s)
  | ok x ↦
      published "builder:workflow:events" (suggestion_created x)
        (record s { repository = save_ai_suggestion x s.repository }) (λ s1. (ok x, s1))
]
