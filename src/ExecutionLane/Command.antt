-- ===== src/ExecutionLane/Command.antt =====
-- `ExecutionLaneCommand` of packages/execution_lane/models.py: its fields, its id and validators.
use Prim.Native.String.{◌++◌ as ◌<>◌}
use nautilus_builder.Prelude.{
  Bool, true, false, not, ◌&&◌, ◌||◌, Option, none, some, String, List, [], ◌∷◌, ◌++◌, Result, ok,
  ◌>>=◌, ◌>>◌, raise_if, Eq, ◌==◌, string_eq, ◌≡◌, ◌↔◌, arith, if◌then◌else◌,
}
use nautilus_builder.Prelude.Text.{lower_is, prefix}
use nautilus_builder.Prelude.Dict.{get, put}
use nautilus_builder.Json.{Value, null, text, Payload, is_true, payload_forbidden}
use nautilus_builder.ExecutionLane.Errors.{
  Error, Check, constraint, secrets_forbidden, coupling_forbidden, paper_live_authority,
  missing_gates, secret_keys, strategy_coupling_keys, gate, no_names,
}
use nautilus_builder.ExecutionLane.Profile.{ExecutionLaneMode, paper, live, present}

pub data ExecutionCommandStatus : Type 0 where
  queued claimed reported rejected : ExecutionCommandStatus

abbrev status_beq : ExecutionCommandStatus → ExecutionCommandStatus → Bool
status_beq queued queued = true
status_beq claimed claimed = true
status_beq reported reported = true
status_beq rejected rejected = true
status_beq _ _ = false

pub status_beq_iff : (a b : ExecutionCommandStatus) → (status_beq a b ≡ true) ↔ (a ≡ b)
status_beq_iff a b = ground arith

instance abbrev pub status_eq : Eq ExecutionCommandStatus
status_eq = record { equal = status_beq; equal_iff = status_beq_iff }

-- The id is filled in before the fields are read, so it is never `None`.
pub record ExecutionLaneCommand : Type 0 where
  pub command_id : String
  pub tenant_id : String
  pub project_id : String
  pub runtime_profile_id : String
  pub lane_mode : ExecutionLaneMode
  pub adapter_id : String
  pub venue : String
  pub venue_account_id : Option String
  pub trade_action_id : String
  pub source_event_id : String
  pub idempotency_key : String
  pub strategy_lineage_id : String
  pub strategy_version_id : String
  pub order_intent : Payload
  pub risk_decision : Payload
  pub promotion_approval_id : Option String
  pub risk_profile_id : Option String
  pub reconciliation_required : Bool
  pub credential_slot_ref : Option String
  pub manual_review_id : Option String
  pub data_tester_evidence_ref : Option String
  pub exec_tester_evidence_ref : Option String
  pub reconciliation_evidence_ref : Option String
  pub live_trading_enabled : Bool
  pub execution_authority : Bool
  pub may_submit_order : Bool
  pub status : ExecutionCommandStatus
  pub claimed_by : Option String
  pub claimed_at : Option String

-- `candidate.get(key)` as an entry of `material`
abbrev pub entry : Payload → String → String × Value
entry d key = (key, elim (get key d) [ none ↦ null | some v ↦ v ])

unfoldable pub material : Payload → Payload
material candidate =
    entry candidate "tenant_id"
    ∷ entry candidate "project_id"
    ∷ entry candidate "runtime_profile_id"
    ∷ entry candidate "trade_action_id"
    ∷ entry candidate "source_event_id"
    ∷ entry candidate "idempotency_key"
    ∷ entry candidate "strategy_lineage_id"
    ∷ entry candidate "strategy_version_id"
    ∷ []

-- `if candidate.get(key)`
unfoldable pub supplied : Payload → String → Bool
unfolding is_true
supplied d key = elim (get key d) [ none ↦ false | some v ↦ is_true v ]

-- The end of `populate_command_id_and_reject_coupling`; `digest` is `_sha256_hex`.
unfoldable pub populate_command_id : (Payload → String) → Payload → Payload
unfolding material supplied prefix
populate_command_id digest candidate =
    if supplied candidate "command_id"
    then candidate
    else put "command_id" (text ("exec_cmd_" <> prefix 16 (digest (material candidate)))) candidate

unfoldable pub check_command_fields : ExecutionLaneCommand → Check
check_command_fields c = do
  raise_if (c.tenant_id == "") (constraint "tenant_id")
  raise_if (c.project_id == "") (constraint "project_id")
  raise_if (c.runtime_profile_id == "") (constraint "runtime_profile_id")
  raise_if (c.adapter_id == "") (constraint "adapter_id")
  raise_if (c.venue == "") (constraint "venue")
  raise_if (c.trade_action_id == "") (constraint "trade_action_id")
  raise_if (c.source_event_id == "") (constraint "source_event_id")
  raise_if (c.idempotency_key == "") (constraint "idempotency_key")
  raise_if (c.strategy_lineage_id == "") (constraint "strategy_lineage_id")
  raise_if (c.strategy_version_id == "") (constraint "strategy_version_id")
  ok tt

-- `reject_secrets_and_coupling_in_payloads`, of one of the two payloads
unfoldable pub reject_secrets_and_coupling : Payload → Check
reject_secrets_and_coupling value = do
  raise_if (payload_forbidden secret_keys value) secrets_forbidden
  raise_if (payload_forbidden strategy_coupling_keys value) coupling_forbidden
  ok tt

unfoldable pub has_live_authority : ExecutionLaneCommand → Bool
has_live_authority c = c.live_trading_enabled || c.execution_authority || c.may_submit_order

-- `str(risk_decision.get("status", "")).lower() == "approved"`: only a text can spell that word
unfoldable pub is_approved : Payload → Bool
unfolding lower_is
is_approved risk_decision = elim (get "status" risk_decision) [
  | some (text s) ↦ lower_is s "approved"
  | _ ↦ false
]

-- The list `missing` of the live branch of `validate_authority`.
unfoldable pub command_missing : ExecutionLaneCommand → List String
command_missing c =
    gate (not c.live_trading_enabled) "live_trading_enabled"
    ++ (gate (not c.execution_authority) "execution_authority"
        ++ (gate (not c.may_submit_order) "may_submit_order"
            ++ (gate (not c.reconciliation_required) "reconciliation_required"
                ++ (gate (not (present c.promotion_approval_id)) "promotion_approval_id"
                    ++ (gate (not (present c.risk_profile_id)) "risk_profile_id"
                        ++ (gate (not (present c.credential_slot_ref)) "credential_slot_ref"
                            ++ (gate (not (present c.manual_review_id)) "manual_review_id"
                                ++ (gate (not (present c.data_tester_evidence_ref))
                                      "data_tester_evidence_ref"
                                    ++ (gate (not (present c.exec_tester_evidence_ref))
                                          "exec_tester_evidence_ref"
                                        ++ (gate (not (present c.reconciliation_evidence_ref))
                                              "reconciliation_evidence_ref"
                                            ++ gate (not (is_approved c.risk_decision))
                                                "risk_decision.status=approved"))))))))))

by_mode : ExecutionLaneMode → ExecutionLaneCommand → Check
by_mode paper c = raise_if (has_live_authority c) paper_live_authority
by_mode live c =
    raise_if (has_live_authority c && not (no_names (command_missing c)))
      (missing_gates (command_missing c))

-- `ExecutionLaneCommand.validate_authority`
unfoldable pub validate_command_authority : ExecutionLaneCommand → Check
unfolding by_mode
validate_command_authority c = by_mode c.lane_mode c

-- `ExecutionLaneCommand.model_validate`; `read` is pydantic's reading of the fields.
unfoldable pub validate_command :
    (Payload → String)
    → (Payload → Result Error ExecutionLaneCommand)
    → Payload
    → Result Error ExecutionLaneCommand
validate_command digest read payload = do
  raise_if (payload_forbidden strategy_coupling_keys payload) coupling_forbidden
  c ← read (populate_command_id digest payload)
  check_command_fields c
  reject_secrets_and_coupling c.order_intent
  reject_secrets_and_coupling c.risk_decision
  validate_command_authority c
  ok c
