-- ===== src/ExecutionLane/PlanBuild.antt =====
-- `build_trading_node_runtime_plan` of packages/execution_lane/nautilus_runtime.py, and the method of
-- `ExecutionLaneService` that calls it.
use nautilus_builder.Prelude.{
  ℕ, Bool, true, false, ◌&&◌, ◌||◌, Option, none, some, String, [], ◌∷◌, ◌++◌, Result, ok, ◌>>=◌,
  ◌>>◌, ◌==◌, string_eq, if◌then◌else◌, ltb, nat_eq,
}
use nautilus_builder.Prelude.Text.{append, prefix}
use nautilus_builder.Prelude.Dict.{Dict}
use nautilus_builder.ExecutionLane.Errors.{Error}
use nautilus_builder.ExecutionLane.Profile.{
  ExecutionLaneProfile, ExecutionLaneMode, paper, live, mode_eq,
}
use nautilus_builder.ExecutionLane.Command.{ExecutionLaneCommand}
use nautilus_builder.ExecutionLane.RuntimePlan.{
  Environment, sandbox_environment, live_environment, TradingNodeConfigContract, RuntimePlan,
  assert_command_matches_profile, reasons, live_ready, paper_ready, is_some,
}
use nautilus_builder.ExecutionLane.Service.{ExecutionLaneService, get_profile, get_command}

-- `s or default` of a `str | None`
abbrev pub or_default : Option String → String → String
or_default none default = default
or_default (some s) default = if s == "" then default else s

abbrev at_least : ℕ → ℕ → ℕ
at_least low n = if ltb n low then low else n

abbrev environment_of : ExecutionLaneMode → Environment
environment_of paper = sandbox_environment
environment_of live = live_environment

-- `x if test else None`
abbrev only_if : Bool → Option String → Option String
only_if true s = s
only_if false s = none

abbrev entry_of : String → Option String → Dict String String
entry_of name none = []
entry_of name (some s) = if s == "" then [] else (name, s) ∷ []

unfoldable pub evidence_refs : ExecutionLaneProfile → Dict String String
evidence_refs p =
    entry_of "data_tester" p.data_tester_evidence_ref
    ++ (entry_of "exec_tester" p.exec_tester_evidence_ref
        ++ (entry_of "reconciliation" p.reconciliation_evidence_ref
            ++ entry_of "manual_review" p.manual_review_id))

-- `_config_contract`
unfoldable pub config_contract : ExecutionLaneProfile → Bool → Bool → TradingNodeConfigContract
unfolding prefix
config_contract p live_ready bound =
    let slot = only_if bound p.credential_slot_ref in
    let lookback = at_least 60 p.reconciliation_lookback_mins in
    record {
      trader_id = append "BUILDER-" (prefix 24 p.project_id);
      environment = environment_of p.lane_mode;
      data_clients =
          (
            or_default p.venue "UNBOUND",
            record {
              adapter_id = p.adapter_id;
              venue_account_id = p.venue_account_id;
              credential_slot_ref = slot;
            },
          )
          ∷ [];
      exec_clients =
          (
            or_default p.venue "UNBOUND",
            record {
              adapter_id = p.adapter_id;
              venue_account_id = p.venue_account_id;
              credential_slot_ref = slot;
              paper_mode = p.lane_mode == paper;
              live_authority = live_ready;
            },
          )
          ∷ [];
      exec_engine = record {
        reconciliation = true;
        reconciliation_lookback_mins = lookback;
        reconciliation_startup_delay_ms = p.reconciliation_startup_delay_ms;
        open_check_lookback_mins = lookback;
        position_check_lookback_mins = lookback;
      };
      risk_profile_id = p.risk_profile_id;
    }

-- `command.field if command is not None else None`
abbrev of_command {ℓ} :
    {A : Type ℓ} → Option ExecutionLaneCommand → (ExecutionLaneCommand → Option A) → Option A
of_command none f = none
of_command (some c) f = f c

abbrev or_else : Option String → Option String → Option String
or_else none other = other
or_else (some s) other = if s == "" then other else some s

-- The plan of a command that matches its profile.
unfoldable pub plan_of :
    Option String → ExecutionLaneProfile → Option ExecutionLaneCommand → RuntimePlan
unfolding evidence_refs config_contract
plan_of installed p command =
    let is_live = live_ready p command in
    let is_ready = is_live || paper_ready p command in
    let bound = is_ready && is_some p.credential_slot_ref in
    record {
      tenant_id = p.tenant_id;
      project_id = p.project_id;
      runtime_profile_id = p.runtime_profile_id;
      lane_mode = p.lane_mode;
      ready = is_ready;
      blocked_reasons = reasons p command;
      runtime_environment = environment_of p.lane_mode;
      adapter_id = or_default p.adapter_id "UNBOUND";
      venue = or_default p.venue "UNBOUND";
      venue_account_id = p.venue_account_id;
      live_trading_enabled = is_live && p.live_trading_enabled;
      execution_authority = is_live && p.execution_authority;
      may_submit_order = is_live && p.may_submit_order;
      advisory_only = p.advisory_only;
      manual_review_required = p.manual_review_required;
      reconciliation_required = p.reconciliation_required;
      credential_slot_ref = only_if bound p.credential_slot_ref;
      risk_profile_id = p.risk_profile_id;
      strategy_lineage_id = of_command command (λ c. some c.strategy_lineage_id);
      strategy_version_id = of_command command (λ c. some c.strategy_version_id);
      trade_action_id = of_command command (λ c. some c.trade_action_id);
      promotion_approval_id = of_command command (λ c. c.promotion_approval_id);
      manual_review_id = p.manual_review_id;
      config_checksum = p.config_checksum;
      evidence_refs = evidence_refs p;
      config_contract = config_contract p is_live bound;
      nautilus_trader_version = or_else p.nautilus_trader_version installed;
    }

unfoldable pub build_trading_node_runtime_plan :
    Option String → ExecutionLaneProfile → Option ExecutionLaneCommand → Result Error RuntimePlan
unfolding plan_of
build_trading_node_runtime_plan installed p command = do
  assert_command_matches_profile p command
  ok (plan_of installed p command)

-- `get_command`, where there is an id
abbrev command_at :
    Option String
    → Option String
    → ExecutionLaneService
    → Result Error (Option ExecutionLaneCommand)
command_at none project_id s = ok none
command_at (some id) project_id s = do c ← get_command id project_id s; ok (some c)

-- `ExecutionLaneService.build_trading_node_runtime_plan`
unfoldable pub build_runtime_plan :
    Option String
    → String
    → Option String
    → Option String
    → ExecutionLaneService
    → Result Error RuntimePlan
unfolding build_trading_node_runtime_plan
build_runtime_plan installed runtime_profile_id command_id project_id s = do
  p ← get_profile runtime_profile_id project_id s
  command ← command_at command_id project_id s
  build_trading_node_runtime_plan installed p command
