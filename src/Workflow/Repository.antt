-- ===== src/Workflow/Repository.antt =====
-- `InMemoryWorkflowRepository` of packages/workflow_spine/repository.py and `InMemoryWorkflowStream`
-- of event_stream.py.
use nautilus_builder.Prelude.{
  ℕ, Bool, true, not, ◌&&◌, Option, none, some, String, List, [], ◌∷◌, ◌++◌, ◌==◌, string_eq,
  if◌then◌else◌, select, find, drop, length, leb, Result, ok, ◌>>◌, raise_if,
}
use nautilus_builder.Prelude.Sorted.{sorted_by, take}
use nautilus_builder.Prelude.Text.{starts_with}
use nautilus_builder.Prelude.Dict.{Dict, get, put, values}
use nautilus_builder.Auth.Models.{UserProjectContext}
use nautilus_builder.Workflow.Models.{
  StrategyIdentity, StrategyVersionIdentity, WorkflowEvent, WorkflowJobRecord, WorkflowResultRecord,
  AiSuggestionRecord, WorkflowError, outside_project, invalid_stream,
}

pub record Repository : Type 0 where
  pub strategies : Dict String StrategyIdentity
  pub versions : Dict String StrategyVersionIdentity
  pub jobs : Dict String WorkflowJobRecord
  pub results : Dict String WorkflowResultRecord
  pub suggestions : Dict String AiSuggestionRecord

abbrev pub new_repository : Repository
new_repository = record {
  strategies = [];
  versions = [];
  jobs = [];
  results = [];
  suggestions = [];
}

unfoldable pub save_strategy : StrategyIdentity → Repository → Repository
save_strategy x r = record r { strategies = put x.strategy_id x r.strategies }

unfoldable pub save_version : StrategyVersionIdentity → Repository → Repository
save_version x r = record r { versions = put x.strategy_version_id x r.versions }

unfoldable pub save_job : WorkflowJobRecord → Repository → Repository
save_job x r = record r { jobs = put x.test_job_id x r.jobs }

unfoldable pub save_result : WorkflowResultRecord → Repository → Repository
save_result x r = record r { results = put x.result_id x r.results }

unfoldable pub save_ai_suggestion : AiSuggestionRecord → Repository → Repository
save_ai_suggestion x r = record r { suggestions = put x.suggestion_id x r.suggestions }

-- `context is None or x.project_id == context.project_id`
unfoldable pub in_project : Option UserProjectContext → String → Bool
in_project none project_id = true
in_project (some c) project_id = project_id == c.project_id

unfoldable pub result_of :
    String
    → Option UserProjectContext
    → Repository
    → Result WorkflowError (Option WorkflowResultRecord)
unfolding in_project
result_of result_id context r = elim (get result_id r.results) [
  | none ↦ ok none
  | some found ↦
      raise_if (not (in_project context found.project_id)) outside_project >> ok (some found)
]

unfoldable pub result_for_job : String → Repository → Option WorkflowResultRecord
result_for_job test_job_id r =
    find (λ (x : WorkflowResultRecord). x.test_job_id == test_job_id) (values r.results)

-- `offset` and `limit` are not negative here: the routes ask for that.
unfoldable pub list_results :
    Option ℕ → ℕ → Option UserProjectContext → Repository → List WorkflowResultRecord
unfolding in_project
list_results limit offset context r =
    let scoped =
      select (λ (x : WorkflowResultRecord). in_project context x.project_id) (values r.results) in
    let all_results = sorted_by (λ (x : WorkflowResultRecord). x.created_at) scoped in
    let start = if leb offset (length all_results) then offset else length all_results in
    let sliced = drop start all_results in elim limit [ none ↦ sliced | some n ↦ take n sliced ]

-- `_scope_suggestions`
unfoldable pub scope_suggestions :
    Option UserProjectContext
    → List AiSuggestionRecord
    → Result WorkflowError (List AiSuggestionRecord)
scope_suggestions none suggestions = ok suggestions
scope_suggestions (some c) suggestions =
    let scoped = select (λ (x : AiSuggestionRecord). x.project_id == c.project_id) suggestions in
    raise_if (leb 1 (length suggestions) && not (leb 1 (length scoped))) outside_project
    >> ok scoped

module _ (context : Option UserProjectContext) (r : Repository) where
  suggestions_where : (AiSuggestionRecord → Bool) → Result WorkflowError (List AiSuggestionRecord)
  suggestions_where p = scope_suggestions context (select p (values r.suggestions))

  unfoldable pub suggestions_for_lineage : String → Result WorkflowError (List AiSuggestionRecord)
  unfolding suggestions_where
  suggestions_for_lineage id = suggestions_where (λ x. x.strategy_lineage_id == id)

  unfoldable pub suggestions_for_result : String → Result WorkflowError (List AiSuggestionRecord)
  unfolding suggestions_where
  suggestions_for_result id = suggestions_where (λ x. x.result_id == id)

  unfoldable pub suggestions_for_ai_thread : String → Result WorkflowError (List AiSuggestionRecord)
  unfolding suggestions_where
  suggestions_for_ai_thread id = suggestions_where (λ x. x.ai_thread_id == id)

-- `InMemoryWorkflowStream`
abbrev pub Streams : Type 0
Streams = Dict String (List WorkflowEvent)

unfoldable pub events_for : String → Streams → List WorkflowEvent
events_for name s = elim (get name s) [ none ↦ [] | some events ↦ events ]

unfoldable pub validate_stream_name : String → Result WorkflowError (Unit {0})
validate_stream_name name =
    raise_if (starts_with name "nd:") invalid_stream
    >> raise_if (not (starts_with name "builder:")) invalid_stream

unfoldable pub publish : String → WorkflowEvent → Streams → Result WorkflowError Streams
unfolding validate_stream_name events_for
publish name event s =
    validate_stream_name name >> ok (put name (events_for name s ++ event ∷ []) s)
