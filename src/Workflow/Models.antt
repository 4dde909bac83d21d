-- ===== src/Workflow/Models.antt =====
-- packages/workflow_spine/models.py. The metrics of a result are numbers, kept as their texts.
use nautilus_builder.Prelude.{
  Bool, ◌||◌, Option, none, some, String, List, [], ◌∷◌, ◌++◌, ◌==◌, string_eq,
}
use nautilus_builder.Prelude.Dict.{Dict}

pub record StrategyIdentity : Type 0 where
  pub strategy_id : String
  pub strategy_lineage_id : String
  pub display_name : String
  pub source_ref : Option String

pub record StrategyVersionIdentity : Type 0 where
  pub strategy_id : String
  pub strategy_lineage_id : String
  pub strategy_version_id : String
  pub parent_version_id : Option String
  pub ai_thread_id : Option String
  pub improvement_cycle_id : Option String
  pub revision_reason : Option String

pub record WorkflowEvent : Type 0 where
  pub event : String
  pub project_id : String
  pub strategy_id : Option String
  pub strategy_lineage_id : Option String
  pub strategy_version_id : Option String
  pub test_job_id : Option String
  pub result_id : Option String
  pub ai_thread_id : Option String
  pub improvement_cycle_id : Option String

abbrev member : String → Option String → Dict String String
member key none = []
member key (some value) = (key, value) ∷ []

-- `WorkflowEvent.to_stream_payload`: the fields in the order of the model, those with no value left
-- out.
unfoldable pub to_stream_payload : WorkflowEvent → Dict String String
to_stream_payload e =
    ("event", e.event)
    ∷ ("project_id", e.project_id)
    ∷ (member "strategy_id" e.strategy_id
        ++ (member "strategy_lineage_id" e.strategy_lineage_id
            ++ (member "strategy_version_id" e.strategy_version_id
                ++ (member "test_job_id" e.test_job_id
                    ++ (member "result_id" e.result_id
                        ++ (member "ai_thread_id" e.ai_thread_id
                            ++ member "improvement_cycle_id" e.improvement_cycle_id))))))

pub record StrategyTestParams : Type 0 where
  pub test_type : String
  pub instrument : String
  pub data_source : String
  pub timeframe : String
  pub start : String
  pub end : String

-- `Field(min_length=1)` fails on one of these texts.
unfoldable pub any_empty : List String → Bool
any_empty [] = Bool.false
any_empty (s ∷ ss) = s == "" || any_empty ss

pub record WorkflowJobRecord : Type 0 where
  pub test_job_id : String
  pub project_id : String
  pub strategy_version_id : String
  pub strategy_lineage_id : String
  pub test_type : String
  pub params : StrategyTestParams

pub record StrategyTestWorkflowOutcome : Type 0 where
  pub strategy : StrategyIdentity
  pub version : StrategyVersionIdentity
  pub job : WorkflowJobRecord

pub record WorkflowResultRecord : Type 0 where
  pub result_id : String
  pub test_job_id : String
  pub project_id : String
  pub strategy_lineage_id : String
  pub strategy_version_id : String
  pub metrics : Dict String String
  pub artifact_refs : Dict String String
  pub created_at : String

pub record AiSuggestionRecord : Type 0 where
  pub suggestion_id : String
  pub project_id : String
  pub strategy_lineage_id : String
  pub strategy_version_id : String
  pub result_id : String
  pub ai_thread_id : String
  pub improvement_cycle_id : String
  pub suggestion_type : String
  pub message : String

-- What a call may raise.
pub data WorkflowError : Type 0 where
  invalid_model unknown_job unknown_result unknown_version : WorkflowError
  missing_thread missing_cycle outside_project invalid_stream : WorkflowError
  no_lineage unknown_lineage : WorkflowError
