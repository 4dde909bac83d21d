-- ===== src/ExecutionLane/Fixtures.antt =====
-- A live lane of packages/execution_lane as test data: its profile, two commands, and the reading of
-- payloads that name nothing but an idempotency key and an id.
use nautilus_builder.Prelude.{true, false, none, some, String, List, [], ◌∷◌, ok, string_eq}
use nautilus_builder.Prelude.Dict.{get}
use nautilus_builder.Json.{text, Payload}
use nautilus_builder.ExecutionLane.Profile.{ExecutionLaneProfile, paper, live, created}
use nautilus_builder.ExecutionLane.Command.{ExecutionLaneCommand, queued}
use nautilus_builder.ExecutionLane.Report.{ExecutionLaneReport}
use nautilus_builder.ExecutionLane.Slots.{ExecutionLaneSession, running}
use nautilus_builder.ExecutionLane.Service.{Readers, ExecutionLaneService, new}
use nautilus_builder.ExecutionLane.Run.{Call, register, enqueue, run}

abbrev pub live_profile : ExecutionLaneProfile
live_profile = record {
  tenant_id = "tenant";
  project_id = "project";
  runtime_profile_id = "lane";
  profile_name = "Lane";
  lane_mode = live;
  enabled = true;
  status = created;
  consumes_stream = "trade_actions";
  adapter_id = some "BINANCE";
  venue = some "BINANCE";
  venue_account_id = none;
  ui_enabled = true;
  paper_controls_enabled = false;
  live_controls_enabled = true;
  advisory_only = false;
  manual_review_required = true;
  paper_trading_enabled = false;
  live_trading_enabled = true;
  execution_authority = true;
  may_submit_order = true;
  risk_profile_id = some "risk";
  reconciliation_required = true;
  credential_slot_ref = some "vault://slot";
  activated_by = some "operator";
  activated_at = some "2026-01-01T00:00:00Z";
  config_checksum = some "0123456789abcdef0123456789abcdef0123456789abcdef0123456789abcdef";
  manual_review_id = some "review";
  data_tester_evidence_ref = some "data";
  exec_tester_evidence_ref = some "exec";
  reconciliation_evidence_ref = some "recon";
  reconciliation_lookback_mins = 60;
  reconciliation_startup_delay_ms = 10_000;
  nautilus_trader_version = none;
}

-- The same lane without any live authority.
abbrev pub paper_profile : ExecutionLaneProfile
paper_profile = record live_profile {
  lane_mode = paper;
  live_controls_enabled = false;
  paper_trading_enabled = true;
  live_trading_enabled = false;
  execution_authority = false;
  may_submit_order = false;
}

abbrev pub live_command : String → String → ExecutionLaneCommand
live_command id key = record {
  command_id = id;
  tenant_id = "tenant";
  project_id = "project";
  runtime_profile_id = "lane";
  lane_mode = live;
  adapter_id = "BINANCE";
  venue = "BINANCE";
  venue_account_id = none;
  trade_action_id = "action";
  source_event_id = "event";
  idempotency_key = key;
  strategy_lineage_id = "lineage";
  strategy_version_id = "version";
  order_intent = [];
  risk_decision = ("status", text "Approved") ∷ [];
  promotion_approval_id = some "approval";
  risk_profile_id = some "risk";
  reconciliation_required = true;
  credential_slot_ref = some "vault://slot";
  manual_review_id = some "review";
  data_tester_evidence_ref = some "data";
  exec_tester_evidence_ref = some "exec";
  reconciliation_evidence_ref = some "recon";
  live_trading_enabled = true;
  execution_authority = true;
  may_submit_order = true;
  status = queued;
  claimed_by = none;
  claimed_at = none;
}

abbrev text_at : String → Payload → String
text_at key d = elim (get key d) [ some (text s) ↦ s | _ ↦ "" ]

abbrev pub report_of : Payload → ExecutionLaneReport
report_of d = record {
  report_id = text_at "report_id" d;
  command_id = text_at "command_id" d;
  runtime_profile_id = "lane";
  tenant_id = "tenant";
  project_id = "project";
  lane_mode = live;
  adapter_id = "BINANCE";
  venue_account_id = none;
  report_type = "fill";
  venue = "BINANCE";
  instrument_id = "BTCUSDT";
  payload = [];
}

abbrev pub readers : Readers
readers = record {
  read_profile = λ d. ok live_profile;
  read_command = λ d. ok (live_command (text_at "command_id" d) (text_at "idempotency_key" d));
  read_report = λ d. ok (report_of d);
  digest = λ d. text_at "idempotency_key" d;
}

abbrev pub request : String → Payload
request key = ("idempotency_key", text key) ∷ []

abbrev pub session_of : String → ExecutionLaneSession
session_of id = record {
  session_id = id;
  command_id = "exec_cmd_1";
  runtime_profile_id = "lane";
  tenant_id = "tenant";
  project_id = "project";
  lane_mode = live;
  status = running;
  lifecycle_status = running;
  worker_id = "worker";
  started_at = "12:00";
  stopped_at = none;
  disposed_at = none;
  lifecycle_events = [];
  live_trading_enabled = true;
  execution_authority = true;
  may_submit_order = true;
}

-- The lane is registered, and two commands wait.
abbrev pub calls : List Call
calls = register [] ∷ enqueue (request "1") ∷ enqueue (request "2") ∷ []

abbrev pub waiting : ExecutionLaneService
waiting = run readers calls (new (some 1) (some 1))

abbrev pub registered : ExecutionLaneService
registered = run readers (register [] ∷ []) (new (some 1) (some 1))

-- A request that chooses its command's id.
abbrev pub chosen : String → String → Payload
chosen id key = ("command_id", text id) ∷ ("idempotency_key", text key) ∷ []
