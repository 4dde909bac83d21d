-- ===== src/Workflow/Projection.antt =====
-- `WorkflowReadModel` of packages/workflow_spine/projections.py: what it keeps for a lineage is a
-- record here, since its keys are fixed.
use nautilus_builder.Prelude.{
  Bool, false, ◌||◌, Option, none, some, String, List, [], ◌∷◌, ◌==◌, string_eq, Result, ok, ◌>>=◌,
  or_raise,
}
use nautilus_builder.Prelude.Dict.{Dict, get, put}
use nautilus_builder.Workflow.Models.{WorkflowEvent, WorkflowError, no_lineage, unknown_lineage}

pub record LineageState : Type 0 where
  pub project_id : Option String
  pub strategy_id : Option String
  pub strategy_version_id : Option String
  pub test_job_id : Option String
  pub result_id : Option String
  pub ai_thread_id : Option String
  pub improvement_cycle_id : Option String
  pub latest_event : Option String
  pub result_completed : Bool
  pub suggestion_created : Bool

abbrev pub empty_state : LineageState
empty_state = record {
  project_id = none;
  strategy_id = none;
  strategy_version_id = none;
  test_job_id = none;
  result_id = none;
  ai_thread_id = none;
  improvement_cycle_id = none;
  latest_event = none;
  result_completed = false;
  suggestion_created = false;
}

abbrev pub ReadModel : Type 0
ReadModel = Dict String LineageState

-- `if key in payload: state[key] = payload[key]`; the payload leaves out the fields with no value.
unfoldable pub overlay : Option String → Option String → Option String
overlay none old = old
overlay (some new) old = some new

-- The assignments of `apply`.
unfoldable pub advance : WorkflowEvent → LineageState → LineageState
unfolding overlay
advance e st = record {
  project_id = some e.project_id;
  strategy_id = overlay e.strategy_id st.strategy_id;
  strategy_version_id = overlay e.strategy_version_id st.strategy_version_id;
  test_job_id = overlay e.test_job_id st.test_job_id;
  result_id = overlay e.result_id st.result_id;
  ai_thread_id = overlay e.ai_thread_id st.ai_thread_id;
  improvement_cycle_id = overlay e.improvement_cycle_id st.improvement_cycle_id;
  latest_event = some e.event;
  result_completed = e.event == "result.completed" || st.result_completed;
  suggestion_created = e.event == "suggestion.created" || st.suggestion_created;
}

-- `self._lineages.setdefault(lineage, {...})`
unfoldable pub state_for : String → ReadModel → LineageState
state_for lineage m = elim (get lineage m) [ none ↦ empty_state | some st ↦ st ]

unfoldable pub apply : WorkflowEvent → ReadModel → Result WorkflowError ReadModel
unfolding state_for
apply e m = do
  lineage ← or_raise e.strategy_lineage_id no_lineage
  ok (put lineage (advance e (state_for lineage m)) m)

unfoldable pub lineage_status : String → ReadModel → Result WorkflowError LineageState
lineage_status lineage m = or_raise (get lineage m) unknown_lineage

-- A run over the events of a stream.
unfoldable pub apply_all : List WorkflowEvent → ReadModel → Result WorkflowError ReadModel
apply_all [] m = ok m
apply_all (e ∷ es) m = do next ← apply e m; apply_all es next
