-- ===== src/Workflow/Calls.antt =====
-- Sequences of calls of the workflow service, and what each call does where it returns.
use nautilus_builder.Prelude.{
  suc, true, false, String, List, [], ◌∷◌, ◌++◌, ok, err, ◌≡◌, refl, string_eq, inl, inr,
  Bool-cases, Result-cases,
}
use nautilus_builder.Prelude.Dict.{put}
use nautilus_builder.Workflow.Models.{
  WorkflowEvent, any_empty, WorkflowResultRecord, AiSuggestionRecord, StrategyTestWorkflowOutcome,
  WorkflowError, invalid_model,
}
use nautilus_builder.Workflow.Repository.{
  save_result, save_ai_suggestion, Streams, events_for, validate_stream_name, publish,
}
use nautilus_builder.Workflow.Service.{
  WorkflowService, NewTest, strategy_of, version_of, job_of, given_texts, versioned, enqueued,
  saved_test, create_version_and_enqueue_test, Completed, make_result, result_completed,
  record_result_completed, Suggested, make_suggestion, suggestion_created,
  record_suggestion_created,
}

pub data Call : Type 0 where
  create : NewTest → Call
  complete : Completed → Call
  suggest : Suggested → Call

-- The service after a call, whether it returns or raises.
unfoldable pub call : Call → WorkflowService → WorkflowService
call (create t) s = (create_version_and_enqueue_test t s).1
call (complete c) s = (record_result_completed c s).1
call (suggest a) s = (record_suggestion_created a s).1

unfoldable pub run : List Call → WorkflowService → WorkflowService
unfolding call
run [] s = s
run (c ∷ cs) s = run cs (call c s)

abbrev pub workflow_events : String
workflow_events = "builder:workflow:events"

abbrev pub test_jobs : String
test_jobs = "builder:test:jobs"

-- A stream with one more event.
abbrev pub announced : String → WorkflowEvent → Streams → Streams
announced name e s = put name (events_for name s ++ e ∷ []) s

pub publish-workflow_events :
    (e : WorkflowEvent) (s : Streams)
    → publish workflow_events e s ≡ ok (announced workflow_events e s)
unfolding publish validate_stream_name
publish-workflow_events e s = refl

pub publish-test_jobs :
    (e : WorkflowEvent) (s : Streams) → publish test_jobs e s ≡ ok (announced test_jobs e s)
unfolding publish validate_stream_name
publish-test_jobs e s = refl

abbrev pub created : NewTest → WorkflowService → WorkflowService
created t s = record {
  repository = saved_test t s.counter s.repository;
  stream =
      announced test_jobs (enqueued t s.counter)
        (announced workflow_events (versioned t s.counter) s.stream);
  counter = suc s.counter;
}

abbrev pub outcome_of : NewTest → WorkflowService → StrategyTestWorkflowOutcome
outcome_of t s = record {
  strategy = strategy_of t s.counter;
  version = version_of t s.counter;
  job = job_of t s.counter;
}

pub create-eq-ok :
    (t : NewTest) (s : WorkflowService)
    → any_empty (given_texts t) ≡ false
    → create_version_and_enqueue_test t s ≡ (ok (outcome_of t s), created t s)
unfolding create_version_and_enqueue_test publish validate_stream_name
create-eq-ok t s h = rw (h, create_version_and_enqueue_test) refl

pub create-eq-err :
    (t : NewTest) (s : WorkflowService)
    → any_empty (given_texts t) ≡ true
    → create_version_and_enqueue_test t s
      ≡ (err invalid_model, record s { counter = suc s.counter })
unfolding create_version_and_enqueue_test
create-eq-err t s h = rw (h, create_version_and_enqueue_test) refl

abbrev pub completed : WorkflowResultRecord → WorkflowService → WorkflowService
completed x s = record s {
  repository = save_result x s.repository;
  stream = announced workflow_events (result_completed x) s.stream;
}

pub complete-eq-ok :
    (c : Completed) (s : WorkflowService) (x : WorkflowResultRecord)
    → make_result c s.repository ≡ ok x
    → record_result_completed c s ≡ (ok x, completed x s)
unfolding record_result_completed publish validate_stream_name
complete-eq-ok c s x h = rw (h, record_result_completed) refl

pub complete-eq-err :
    (c : Completed) (s : WorkflowService) (e : WorkflowError)
    → make_result c s.repository ≡ err e
    → record_result_completed c s ≡ (err e, s)
unfolding record_result_completed
complete-eq-err c s e h = rw (h, record_result_completed) refl

abbrev pub suggested : AiSuggestionRecord → WorkflowService → WorkflowService
suggested x s = record s {
  repository = save_ai_suggestion x s.repository;
  stream = announced workflow_events (suggestion_created x) s.stream;
}

pub suggest-eq-ok :
    (a : Suggested) (s : WorkflowService) (x : AiSuggestionRecord)
    → make_suggestion a s.repository ≡ ok x
    → record_suggestion_created a s ≡ (ok x, suggested x s)
unfolding record_suggestion_created publish validate_stream_name
suggest-eq-ok a s x h = rw (h, record_suggestion_created) refl

pub suggest-eq-err :
    (a : Suggested) (s : WorkflowService) (e : WorkflowError)
    → make_suggestion a s.repository ≡ err e
    → record_suggestion_created a s ≡ (err e, s)
unfolding record_suggestion_created
suggest-eq-err a s e h = rw (h, record_suggestion_created) refl

-- The states that a call can lead to.
pub data Moved (s : WorkflowService) : WorkflowService → Type 0 where
  refused : {u : WorkflowService} → u ≡ s → Moved s u
  skipped : {u : WorkflowService} → u ≡ record s { counter = suc s.counter } → Moved s u
  by_create : {u : WorkflowService} (t : NewTest) → u ≡ created t s → Moved s u
  by_complete :
      {u : WorkflowService} (c : Completed) (x : WorkflowResultRecord)
      → make_result c s.repository ≡ ok x
      → u ≡ completed x s
      → Moved s u
  by_suggest :
      {u : WorkflowService} (a : Suggested) (x : AiSuggestionRecord)
      → make_suggestion a s.repository ≡ ok x
      → u ≡ suggested x s
      → Moved s u

pub call-Moved : (c : Call) (s : WorkflowService) → Moved s (call c s)
unfolding call
call-Moved (create t) s = elim (Bool-cases (any_empty (given_texts t))) [
  | inl bad ↦ skipped (λ i. (create-eq-err t s bad i).1)
  | inr good ↦ by_create t (λ i. (create-eq-ok t s good i).1)
]
call-Moved (complete c) s = elim (Result-cases (make_result c s.repository)) [
  | inl (x, made) ↦ by_complete c x made (λ i. (complete-eq-ok c s x made i).1)
  | inr (e, raised) ↦ refused (λ i. (complete-eq-err c s e raised i).1)
]
call-Moved (suggest a) s = elim (Result-cases (make_suggestion a s.repository)) [
  | inl (x, made) ↦ by_suggest a x made (λ i. (suggest-eq-ok a s x made i).1)
  | inr (e, raised) ↦ refused (λ i. (suggest-eq-err a s e raised i).1)
]
