-- ===== src/Workflow/Examples.antt =====
-- The theorems on packages/workflow_spine at concrete calls.
use nautilus_builder.Prelude.{
  none, some, String, List, [], ◌∷◌, ok, err, string_eq, pair_eq, ◌≡◌, refl, length, any,
}
use nautilus_builder.Prelude.Dict.{get, put, values}
use nautilus_builder.Prelude.Text.{padded, characters, decimal}
use nautilus_builder.Prelude.Sorted.{sorted_by}
use nautilus_builder.Auth.Models.{UserProjectContext}
use nautilus_builder.Workflow.Models.{
  any_empty, to_stream_payload, WorkflowResultRecord, invalid_model, unknown_job, missing_thread,
  outside_project, invalid_stream,
}
use nautilus_builder.Workflow.Repository.{
  save_strategy, save_version, save_job, save_result, save_ai_suggestion, in_project, result_of,
  list_results, scope_suggestions, suggestions_for_lineage, suggestions_for_result, events_for,
  validate_stream_name, publish,
}
use nautilus_builder.Workflow.Service.{
  WorkflowService, new_service, NewTest, numbered, strategy_of, version_of, job_of, given_texts,
  versioned, enqueued, create_version_and_enqueue_test, Completed, result_record, result_completed,
  make_result, record_result_completed, Suggested, suggestion_record, suggestion_created,
  make_suggestion, record_suggestion_created,
}
use nautilus_builder.Workflow.Projection.{ReadModel, state_for, apply_all}
use nautilus_builder.Workflow.Calls.{
  Call, create, complete, suggest, call, run, workflow_events, test_jobs,
}
use nautilus_builder.Workflow.Records.{IsLinked}
use nautilus_builder.Workflow.Links.{run-IsLinked}
use nautilus_builder.Workflow.Follows.{
  published_events, tells, last_event, last_given, read_model_follows,
}

abbrev test : NewTest
test = record {
  project_id = "p";
  display_name = "cross";
  test_type = "backtest";
  instrument = "BTCUSDT";
  data_source = "catalog";
  timeframe = "1m";
  start = "2024-01-01";
  end = "2024-02-01";
  ai_thread_id = some "th";
  improvement_cycle_id = some "cy";
}

abbrev plain_test : NewTest
plain_test = record test { project_id = "q"; ai_thread_id = none }

abbrev done : Completed
done = record {
  test_job_id = "job_001";
  result_id = "res";
  metrics = ("pnl", "1.5") ∷ [];
  artifact_refs = [];
  now = "10:00";
}

abbrev idea : Suggested
idea = record {
  result_id = "res";
  suggestion_id = "sug";
  suggestion_type = "params";
  message = "slower";
}

abbrev calls : List Call
calls =
    create test
    ∷ create (record test { display_name = "" })
    ∷ create plain_test
    ∷ complete done
    ∷ suggest idea
    ∷ complete (record done { test_job_id = "job_003"; result_id = "res3"; now = "09:00" })
    ∷ suggest (record idea { result_id = "res3" })
    ∷ []

abbrev after : WorkflowService
after = run calls new_service

abbrev member_of : String → UserProjectContext
member_of project = record { user_id = "u"; project_id = project; role = "viewer" }

ids : List WorkflowResultRecord → List String
ids [] = []
ids (x ∷ xs) = x.result_id ∷ ids xs

-- The second test is refused and takes its number with it; the third has no thread, so that its
-- result gets no suggestion.
runs :
    ((create_version_and_enqueue_test (record test { display_name = "" }) new_service).0
      ≡ err invalid_model)
    × (get "job_002" after.repository.jobs ≡ none)
    × (after.counter ≡ 4)
    × (length (values after.repository.suggestions) ≡ 1)
    × ((record_suggestion_created (record idea { result_id = "res3" }) after).0
        ≡ err missing_thread)
    × ((record_result_completed (record done { test_job_id = "job_002" }) after).0
        ≡ err unknown_job)
    × (ids (list_results none 0 none after.repository) ≡ "res3" ∷ "res" ∷ [])
    × (ids (list_results (some 1) 1 none after.repository) ≡ "res" ∷ [])
    × (ids (list_results none 0 (some (member_of "q")) after.repository) ≡ "res3" ∷ [])
    × (result_of "res" (some (member_of "q")) after.repository ≡ err outside_project)
    × (suggestions_for_lineage (some (member_of "q")) after.repository "lineage_001"
        ≡ err outside_project)
    × (suggestions_for_result (some (member_of "q")) after.repository "res3" ≡ ok [])
    × (length (events_for workflow_events after.stream) ≡ 5)
    × (length (events_for test_jobs after.stream) ≡ 2)
    × (publish "nd:x" (versioned test 1) [] ≡ err invalid_stream)
unfolding run call create_version_and_enqueue_test record_result_completed record_suggestion_created
    make_result make_suggestion result_record suggestion_record result_completed suggestion_created
    versioned enqueued any_empty given_texts numbered strategy_of version_of job_of save_strategy
    save_version save_job save_result save_ai_suggestion in_project result_of list_results sorted_by
    scope_suggestions suggestions_for_lineage suggestions_for_result events_for validate_stream_name
    publish get put values ids padded characters decimal
runs = (refl, refl, refl, refl, refl, refl, refl, refl, refl, refl, refl, refl, refl, refl, refl)

payload :
    to_stream_payload (result_completed (result_record done (job_of test 1)))
    ≡ ("event", "result.completed")
      ∷ ("project_id", "p")
      ∷ ("strategy_lineage_id", "lineage_001")
      ∷ ("strategy_version_id", "sv_001")
      ∷ ("test_job_id", "job_001")
      ∷ ("result_id", "res")
      ∷ []
unfolding to_stream_payload result_completed result_record job_of numbered padded characters decimal
payload = refl

run-IsLinked_example : IsLinked after
run-IsLinked_example = run-IsLinked calls

read_model_follows_example :
    (m : ReadModel) × (apply_all (published_events calls) [] ≡ ok m)
    × ((state_for "lineage_001" m).result_completed
        ≡ any (tells "lineage_001" "result.completed") (published_events calls))
    × ((state_for "lineage_001" m).suggestion_created
        ≡ any (tells "lineage_001" "suggestion.created") (published_events calls))
    × ((state_for "lineage_001" m).latest_event
        ≡ last_event "lineage_001" (published_events calls) none)
    × ((state_for "lineage_001" m).project_id
        ≡ last_given "lineage_001" (λ e. some e.project_id) (published_events calls) none)
    × ((state_for "lineage_001" m).strategy_id
        ≡ last_given "lineage_001" (λ e. e.strategy_id) (published_events calls) none)
    × ((state_for "lineage_001" m).strategy_version_id
        ≡ last_given "lineage_001" (λ e. e.strategy_version_id) (published_events calls) none)
    × ((state_for "lineage_001" m).test_job_id
        ≡ last_given "lineage_001" (λ e. e.test_job_id) (published_events calls) none)
    × ((state_for "lineage_001" m).result_id
        ≡ last_given "lineage_001" (λ e. e.result_id) (published_events calls) none)
    × ((state_for "lineage_001" m).ai_thread_id
        ≡ last_given "lineage_001" (λ e. e.ai_thread_id) (published_events calls) none)
    × ((state_for "lineage_001" m).improvement_cycle_id
        ≡ last_given "lineage_001" (λ e. e.improvement_cycle_id) (published_events calls) none)
read_model_follows_example = read_model_follows calls "lineage_001"
