-- ===== src/ExecutionLane/RuntimePlan.antt =====
-- packages/execution_lane/nautilus_runtime.py: whether a profile, with a command or without one, is
-- ready to run a trading node, and with which configuration. The version of NautilusTrader that is
-- installed is an argument; fields of the plan that are constants are left out.
use nautilus_builder.Prelude.{
  ℕ, Bool, true, false, not, ◌&&◌, ◌||◌, Option, none, some, String, List, [], ◌∷◌, ◌++◌, ok, ◌>>◌,
  raise_if, ◌==◌, string_eq, optional_eq, if◌then◌else◌,
}
use nautilus_builder.Prelude.Text.{at_most}
use nautilus_builder.Prelude.Dict.{Dict, get}
use nautilus_builder.Json.{text, Payload}
use nautilus_builder.ExecutionLane.Errors.{
  Check, scope_mismatch, mode_mismatch, adapter_mismatch, venue_mismatch, profile_id_mismatch, gate,
  no_names,
}
use nautilus_builder.ExecutionLane.Profile.{
  ExecutionLaneProfile, ExecutionLaneMode, paper, live, mode_eq, present, is_live_enabled,
}
use nautilus_builder.ExecutionLane.Command.{ExecutionLaneCommand}

-- The client entries of config_contract.py, one of each, under the venue's name.
pub record DataClientEntry : Type 0 where
  pub adapter_id : Option String
  pub venue_account_id : Option String
  pub credential_slot_ref : Option String

pub record ExecClientEntry : Type 0 where
  pub adapter_id : Option String
  pub venue_account_id : Option String
  pub credential_slot_ref : Option String
  pub paper_mode : Bool
  pub live_authority : Bool

pub record ExecEngineConfig : Type 0 where
  pub reconciliation : Bool
  pub reconciliation_lookback_mins : ℕ
  pub reconciliation_startup_delay_ms : ℕ
  pub open_check_lookback_mins : ℕ
  pub position_check_lookback_mins : ℕ

pub data Environment : Type 0 where
  sandbox_environment live_environment : Environment

pub record TradingNodeConfigContract : Type 0 where
  pub trader_id : String
  pub environment : Environment
  pub data_clients : Dict String DataClientEntry
  pub exec_clients : Dict String ExecClientEntry
  pub exec_engine : ExecEngineConfig
  pub risk_profile_id : Option String

pub record RuntimePlan : Type 0 where
  pub tenant_id : String
  pub project_id : String
  pub runtime_profile_id : String
  pub lane_mode : ExecutionLaneMode
  pub ready : Bool
  pub blocked_reasons : List String
  pub runtime_environment : Environment
  pub adapter_id : String
  pub venue : String
  pub venue_account_id : Option String
  pub live_trading_enabled : Bool
  pub execution_authority : Bool
  pub may_submit_order : Bool
  pub advisory_only : Bool
  pub manual_review_required : Bool
  pub reconciliation_required : Bool
  pub credential_slot_ref : Option String
  pub risk_profile_id : Option String
  pub strategy_lineage_id : Option String
  pub strategy_version_id : Option String
  pub trade_action_id : Option String
  pub promotion_approval_id : Option String
  pub manual_review_id : Option String
  pub config_checksum : Option String
  pub evidence_refs : Dict String String
  pub config_contract : TradingNodeConfigContract
  pub nautilus_trader_version : Option String

unfoldable pub assert_command_matches_profile :
    ExecutionLaneProfile → Option ExecutionLaneCommand → Check
assert_command_matches_profile p none = ok tt
assert_command_matches_profile p (some c) = do
  raise_if (not (p.tenant_id == c.tenant_id) || not (p.project_id == c.project_id)) scope_mismatch
  raise_if (not (p.runtime_profile_id == c.runtime_profile_id)) profile_id_mismatch
  raise_if (not (p.lane_mode == c.lane_mode)) mode_mismatch
  raise_if (not (p.adapter_id == some c.adapter_id)) adapter_mismatch
  raise_if (not (p.venue == some c.venue)) venue_mismatch
  ok tt

-- The branch for paper mode of `_profile_blocked_reasons`.
unfoldable pub paper_blocked : ExecutionLaneProfile → List String
paper_blocked p =
    gate (not p.paper_trading_enabled) "paper_trading_enabled"
    ++ (gate p.live_trading_enabled "paper_live_trading_enabled_forbidden"
        ++ (gate p.execution_authority "paper_execution_authority_forbidden"
            ++ gate p.may_submit_order "paper_may_submit_order_forbidden"))

-- The branch for live mode; `_blank` is the opposite of `_present`.
unfoldable pub live_blocked : ExecutionLaneProfile → List String
live_blocked p =
    gate p.advisory_only "advisory_only=false"
    ++ (gate (not p.manual_review_required) "manual_review_required"
        ++ (gate (not p.reconciliation_required) "reconciliation_required"
            ++ (gate (not p.live_trading_enabled) "live_trading_enabled"
                ++ (gate (not p.execution_authority) "execution_authority"
                    ++ (gate (not p.may_submit_order) "may_submit_order"
                        ++ (gate (not (present p.risk_profile_id)) "risk_profile_id"
                            ++ (gate (not (present p.credential_slot_ref)) "credential_slot_ref"
                                ++ (gate (not (present p.activated_by)) "activated_by"
                                    ++ (gate (not (present p.activated_at)) "activated_at"
                                        ++ (gate (not (present p.config_checksum)) "config_checksum"
                                            ++ (gate (not (present p.manual_review_id))
                                                  "manual_review_id"
                                                ++ (gate (not (present p.data_tester_evidence_ref))
                                                      "data_tester_evidence_ref"
                                                    ++ (gate
                                                          (not (present p.exec_tester_evidence_ref))
                                                          "exec_tester_evidence_ref"
                                                        ++ gate
                                                            (not
                                                            (present p.reconciliation_evidence_ref))
                                                            "reconciliation_evidence_ref")))))))))))))

abbrev pub blocked_by_mode : ExecutionLaneMode → ExecutionLaneProfile → List String
blocked_by_mode paper p = paper_blocked p
blocked_by_mode live p = live_blocked p

unfoldable pub profile_blocked_reasons : ExecutionLaneProfile → List String
profile_blocked_reasons p =
    gate (not p.enabled) "enabled"
    ++ (gate (not (present p.adapter_id)) "adapter_id"
        ++ (gate (not (present p.venue)) "venue" ++ blocked_by_mode p.lane_mode p))

-- `command.risk_decision.get("status") != "approved"`, which minds the case
unfoldable pub is_approved_exactly : Payload → Bool
is_approved_exactly risk_decision = elim (get "status" risk_decision) [
  | some (text s) ↦ s == "approved"
  | _ ↦ false
]

-- The branch for live mode of `_command_blocked_reasons`.
unfoldable pub live_command_blocked : ExecutionLaneProfile → ExecutionLaneCommand → List String
live_command_blocked p c =
    gate (not c.live_trading_enabled) "command.live_trading_enabled"
    ++ (gate (not c.execution_authority) "command.execution_authority"
        ++ (gate (not c.may_submit_order) "command.may_submit_order"
            ++ (gate (not (c.risk_profile_id == p.risk_profile_id)) "command.risk_profile_id"
                ++ (gate (not (c.credential_slot_ref == p.credential_slot_ref))
                      "command.credential_slot_ref"
                    ++ (gate (not (is_approved_exactly c.risk_decision))
                          "command.risk_decision.status=approved"
                        ++ (gate (not (present c.promotion_approval_id))
                              "command.promotion_approval_id"
                            ++ (gate (not (present c.manual_review_id)) "command.manual_review_id"
                                ++ (gate (not (present c.data_tester_evidence_ref))
                                      "command.data_tester_evidence_ref"
                                    ++ (gate (not (present c.exec_tester_evidence_ref))
                                          "command.exec_tester_evidence_ref"
                                        ++ (gate (not (present c.reconciliation_evidence_ref))
                                              "command.reconciliation_evidence_ref"
                                            ++ (gate
                                                  (not (c.manual_review_id == p.manual_review_id))
                                                  "command.manual_review_id"
                                                ++ (gate
                                                      (not (
                                                        c.data_tester_evidence_ref
                                                        == p.data_tester_evidence_ref))
                                                      "command.data_tester_evidence_ref"
                                                    ++ (gate
                                                          (not (
                                                            c.exec_tester_evidence_ref
                                                            == p.exec_tester_evidence_ref))
                                                          "command.exec_tester_evidence_ref"
                                                        ++ gate
                                                            (not (
                                                            c.reconciliation_evidence_ref
                                                            == p.reconciliation_evidence_ref))
                                                            "command.reconciliation_evidence_ref")))))))))))))

abbrev pub command_blocked_by_mode :
    ExecutionLaneMode → ExecutionLaneProfile → ExecutionLaneCommand → List String
command_blocked_by_mode paper p c = []
command_blocked_by_mode live p c = live_command_blocked p c

unfoldable pub command_blocked_reasons :
    ExecutionLaneProfile → Option ExecutionLaneCommand → List String
command_blocked_reasons p none = []
command_blocked_reasons p (some c) = command_blocked_by_mode p.lane_mode p c

-- `sorted(set(reasons))`
unfoldable pub insert_reason : String → List String → List String
insert_reason s [] = s ∷ []
insert_reason s (t ∷ ts) =
    let rest = insert_reason s ts in
    if s == t then t ∷ ts else if at_most s t then s ∷ t ∷ ts else t ∷ rest

unfoldable pub sorted_set : List String → List String
unfolding insert_reason
sorted_set [] = []
sorted_set (s ∷ ss) = insert_reason s (sorted_set ss)

unfoldable pub reasons : ExecutionLaneProfile → Option ExecutionLaneCommand → List String
reasons p command = sorted_set (profile_blocked_reasons p ++ command_blocked_reasons p command)

abbrev pub is_some : Option String → Bool
is_some none = false
is_some (some _) = true

unfoldable pub live_ready : ExecutionLaneProfile → Option ExecutionLaneCommand → Bool
live_ready p command = p.lane_mode == live && no_names (reasons p command) && is_live_enabled p

unfoldable pub paper_ready : ExecutionLaneProfile → Option ExecutionLaneCommand → Bool
paper_ready p command =
    p.lane_mode == paper
    && no_names (reasons p command)
    && p.enabled
    && p.paper_trading_enabled
    && is_some p.adapter_id
    && is_some p.venue
