-- ===== src/Workflow/Progress.antt =====
-- From an enqueued test to its suggestion in packages/workflow_spine/service.py.
use nautilus_builder.Prelude.{List, string_eq}
use nautilus_builder.Workflow.Models.{StrategyTestWorkflowOutcome}
use nautilus_builder.Workflow.Repository.{Repository}
use nautilus_builder.Workflow.Service.{
  WorkflowService, new_service, NewTest, create_version_and_enqueue_test, Completed,
  record_result_completed, Suggested,
}
use nautilus_builder.Workflow.Calls.{Call, run, outcome_of}

-- What a suggestion for the result of `c` is asked with.
abbrev pub suggestion : Completed → Suggested → Suggested
suggestion c a = record a { result_id = c.result_id }

-- The test of `t` after the calls `before`, and the completion of its job.
module _ (before : List Call) (t : NewTest) where
  abbrev start : WorkflowService
  start = run before new_service

  abbrev pub enqueued_job : StrategyTestWorkflowOutcome
  enqueued_job = outcome_of t start

  abbrev pub completion : Completed → Completed
  completion c = record c { test_job_id = enqueued_job.job.test_job_id }

-- The service after further calls, and after the completion.
module _ (before between : List Call) (t : NewTest) where
  abbrev pub waiting : WorkflowService
  waiting = run between (create_version_and_enqueue_test t (start before t)).1

  abbrev pub finished : Completed → WorkflowService
  finished c = (record_result_completed (completion before t c) waiting).1
