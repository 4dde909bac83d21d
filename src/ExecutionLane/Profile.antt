-- ===== src/ExecutionLane/Profile.antt =====
-- `ExecutionLaneProfile` of packages/execution_lane/models.py: its fields and validators.
use Prim.Native.String
use nautilus_builder.Prelude.{
  ℕ, Bool, true, false, not, ◌&&◌, ◌||◌, Option, none, some, String, List, ◌++◌, Result, ok, ◌>>=◌,
  ◌>>◌, raise_if, Eq, ◌==◌, string_eq, nat_eq, ltb, ◌≡◌, ◌↔◌, arith, if◌then◌else◌,
}
use nautilus_builder.Prelude.Text.{strip}
use nautilus_builder.Json.{Payload, payload_forbidden}
use nautilus_builder.ExecutionLane.Errors.{
  Error, Check, constraint, secrets_forbidden, coupling_forbidden, missing_binding,
  paper_live_authority, paper_not_enabled, live_controls_without_authority, missing_gates,
  secret_keys, strategy_coupling_keys, gate, no_names,
}

pub data ExecutionLaneMode : Type 0 where
  paper live : ExecutionLaneMode

abbrev mode_beq : ExecutionLaneMode → ExecutionLaneMode → Bool
mode_beq paper paper = true
mode_beq live live = true
mode_beq _ _ = false

pub mode_beq_iff : (a b : ExecutionLaneMode) → (mode_beq a b ≡ true) ↔ (a ≡ b)
mode_beq_iff a b = ground arith

instance abbrev pub mode_eq : Eq ExecutionLaneMode
mode_eq = record { equal = mode_beq; equal_iff = mode_beq_iff }

pub data ExecutionLaneStatus : Type 0 where
  created running stopped : ExecutionLaneStatus

-- `strategy_lane_coupled` is `Literal[False]`, so it has no field here.
pub record ExecutionLaneProfile : Type 0 where
  pub tenant_id : String
  pub project_id : String
  pub runtime_profile_id : String
  pub profile_name : String
  pub lane_mode : ExecutionLaneMode
  pub enabled : Bool
  pub status : ExecutionLaneStatus
  pub consumes_stream : String
  pub adapter_id : Option String
  pub venue : Option String
  pub venue_account_id : Option String
  pub ui_enabled : Bool
  pub paper_controls_enabled : Bool
  pub live_controls_enabled : Bool
  pub advisory_only : Bool
  pub manual_review_required : Bool
  pub paper_trading_enabled : Bool
  pub live_trading_enabled : Bool
  pub execution_authority : Bool
  pub may_submit_order : Bool
  pub risk_profile_id : Option String
  pub reconciliation_required : Bool
  pub credential_slot_ref : Option String
  pub activated_by : Option String
  pub activated_at : Option String
  pub config_checksum : Option String
  pub manual_review_id : Option String
  pub data_tester_evidence_ref : Option String
  pub exec_tester_evidence_ref : Option String
  pub reconciliation_evidence_ref : Option String
  pub reconciliation_lookback_mins : ℕ
  -- the source's float of seconds, in milliseconds
  pub reconciliation_startup_delay_ms : ℕ
  pub nautilus_trader_version : Option String

-- `_present`
unfoldable pub present : Option String → Bool
present none = false
present (some value) = not (strip value == "")

-- `len(self.config_checksum) != _SHA256_LEN`, where there is a checksum
unfoldable pub bad_checksum : Option String → Bool
bad_checksum none = false
bad_checksum (some value) = not (String.count value == 64)

-- The declared constraints, `min_length=1` and `ge=`, of the fields.
unfoldable pub check_profile_fields : ExecutionLaneProfile → Check
check_profile_fields p = do
  raise_if (p.tenant_id == "") (constraint "tenant_id")
  raise_if (p.project_id == "") (constraint "project_id")
  raise_if (p.runtime_profile_id == "") (constraint "runtime_profile_id")
  raise_if (p.profile_name == "") (constraint "profile_name")
  raise_if (p.consumes_stream == "") (constraint "consumes_stream")
  raise_if (ltb p.reconciliation_lookback_mins 60) (constraint "reconciliation_lookback_mins")
  raise_if (ltb p.reconciliation_startup_delay_ms 10_000)
      (constraint "reconciliation_startup_delay_secs")
  ok tt

unfoldable pub wants_live_authority : ExecutionLaneProfile → Bool
wants_live_authority p = p.live_trading_enabled || p.execution_authority || p.may_submit_order

unfoldable pub unbound : ExecutionLaneProfile → List String
unbound p = gate (not (present p.adapter_id)) "adapter_id" ++ gate (not (present p.venue)) "venue"

-- The list `missing` of the live branch of `validate_authority`.
unfoldable pub profile_missing : ExecutionLaneProfile → List String
profile_missing p =
    gate (not p.enabled) "enabled"
    ++ (gate p.advisory_only "advisory_only=false"
        ++ (gate (not p.manual_review_required) "manual_review_required"
            ++ (gate (not p.reconciliation_required) "reconciliation_required"
                ++ (gate (not p.live_trading_enabled) "live_trading_enabled"
                    ++ (gate (not p.execution_authority) "execution_authority"
                        ++ (gate (not p.may_submit_order) "may_submit_order"
                            ++ (gate (not (present p.risk_profile_id)) "risk_profile_id"
                                ++ (gate (not (present p.credential_slot_ref)) "credential_slot_ref"
                                    ++ (gate (not (present p.activated_by)) "activated_by"
                                        ++ (gate (not (present p.activated_at)) "activated_at"
                                            ++ (gate (not (present p.config_checksum))
                                                  "config_checksum"
                                                ++ (gate (not (present p.manual_review_id))
                                                      "manual_review_id"
                                                    ++ (gate
                                                          (not (present p.data_tester_evidence_ref))
                                                          "data_tester_evidence_ref"
                                                        ++ (gate
                                                            (not
                                                            (present p.exec_tester_evidence_ref))
                                                            "exec_tester_evidence_ref"
                                                            ++ (gate
                                                            (not
                                                            (present p.reconciliation_evidence_ref))
                                                            "reconciliation_evidence_ref"
                                                            ++ gate (bad_checksum p.config_checksum)
                                                            "config_checksum_sha256")))))))))))))))

validate_paper : ExecutionLaneProfile → Check
validate_paper p = do
  raise_if (wants_live_authority p) paper_live_authority
  raise_if (p.enabled && not p.paper_trading_enabled) paper_not_enabled
  raise_if p.live_controls_enabled live_controls_without_authority
  ok tt

validate_live : ExecutionLaneProfile → Check
validate_live p =
    if wants_live_authority p
    then raise_if (not (no_names (profile_missing p))) (missing_gates (profile_missing p))
    else raise_if p.live_controls_enabled live_controls_without_authority

by_mode : ExecutionLaneMode → ExecutionLaneProfile → Check
unfolding validate_paper validate_live
by_mode paper p = validate_paper p
by_mode live p = validate_live p

-- `ExecutionLaneProfile.validate_authority`
unfoldable pub validate_profile_authority : ExecutionLaneProfile → Check
unfolding by_mode
validate_profile_authority p = do
  raise_if (p.enabled && not (no_names (unbound p))) (missing_binding (unbound p))
  by_mode p.lane_mode p

-- `ExecutionLaneProfile.is_live_enabled`
unfoldable pub is_live_enabled : ExecutionLaneProfile → Bool
is_live_enabled p =
    p.lane_mode == live
    && p.enabled
    && p.live_trading_enabled
    && p.execution_authority
    && p.may_submit_order
    && not p.advisory_only
    && p.manual_review_required
    && p.reconciliation_required
    && present p.risk_profile_id
    && present p.credential_slot_ref
    && present p.activated_by
    && present p.activated_at
    && present p.config_checksum
    && present p.manual_review_id
    && present p.data_tester_evidence_ref
    && present p.exec_tester_evidence_ref
    && present p.reconciliation_evidence_ref

-- `ExecutionLaneProfile.model_validate`; `read` is pydantic's reading of the fields.
unfoldable pub validate_profile :
    (Payload → Result Error ExecutionLaneProfile) → Payload → Result Error ExecutionLaneProfile
validate_profile read payload = do
  raise_if (payload_forbidden secret_keys payload) secrets_forbidden
  raise_if (payload_forbidden strategy_coupling_keys payload) coupling_forbidden
  p ← read payload
  check_profile_fields p
  validate_profile_authority p
  ok p
