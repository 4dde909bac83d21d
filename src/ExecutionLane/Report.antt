-- ===== src/ExecutionLane/Report.antt =====
-- `ExecutionLaneReport` of packages/execution_lane/models.py, and the defaults that `record_report`
-- of packages/execution_lane/service.py fills in.
use Prim.Native.String.{◌++◌ as ◌<>◌}
use nautilus_builder.Prelude.{
  Option, none, some, String, [], ◌∷◌, Result, ok, ◌>>=◌, ◌>>◌, raise_if, ◌==◌, string_eq,
  if◌then◌else◌,
}
use nautilus_builder.Prelude.Text.{prefix}
use nautilus_builder.Prelude.Dict.{get, put}
use nautilus_builder.Json.{
  Value, text, obj, no_fields, Payload, payload_forbidden, set_default, optional,
}
use nautilus_builder.ExecutionLane.Errors.{Error, Check, constraint, secrets_forbidden, secret_keys}
use nautilus_builder.ExecutionLane.Profile.{ExecutionLaneMode, paper, live}
use nautilus_builder.ExecutionLane.Command.{ExecutionLaneCommand, entry, supplied}

pub record ExecutionLaneReport : Type 0 where
  pub report_id : String
  pub command_id : String
  pub runtime_profile_id : String
  pub tenant_id : String
  pub project_id : String
  pub lane_mode : ExecutionLaneMode
  pub adapter_id : String
  pub venue_account_id : Option String
  pub report_type : String
  pub venue : String
  pub instrument_id : String
  pub payload : Payload

unfoldable pub report_material : Payload → Payload
report_material candidate =
    entry candidate "command_id"
    ∷ entry candidate "runtime_profile_id"
    ∷ entry candidate "report_type"
    ∷ ("payload", elim (get "payload" candidate) [ none ↦ obj no_fields | some v ↦ v ])
    ∷ []

-- `populate_report_id`
unfoldable pub populate_report_id : (Payload → String) → Payload → Payload
unfolding report_material supplied prefix
populate_report_id digest candidate =
    if supplied candidate "report_id"
    then candidate
    else put "report_id" (text ("exec_report_" <> prefix 16 (digest (report_material candidate))))
        candidate

unfoldable pub check_report_fields : ExecutionLaneReport → Check
check_report_fields r = do
  raise_if (r.command_id == "") (constraint "command_id")
  raise_if (r.runtime_profile_id == "") (constraint "runtime_profile_id")
  raise_if (r.tenant_id == "") (constraint "tenant_id")
  raise_if (r.project_id == "") (constraint "project_id")
  raise_if (r.adapter_id == "") (constraint "adapter_id")
  raise_if (r.report_type == "") (constraint "report_type")
  raise_if (r.venue == "") (constraint "venue")
  raise_if (r.instrument_id == "") (constraint "instrument_id")
  ok tt

-- `ExecutionLaneReport.model_validate`; `read` is pydantic's reading of the fields.
unfoldable pub validate_report :
    (Payload → String)
    → (Payload → Result Error ExecutionLaneReport)
    → Payload
    → Result Error ExecutionLaneReport
validate_report digest read payload = do
  r ← read (populate_report_id digest payload)
  check_report_fields r
  raise_if (payload_forbidden secret_keys r.payload) secrets_forbidden
  ok r

abbrev mode_value : ExecutionLaneMode → String
mode_value paper = "paper"
mode_value live = "live"

-- `command.order_intent.get("instrument_id", "UNKNOWN")`
abbrev instrument_of : Payload → Value
instrument_of d = elim (get "instrument_id" d) [ none ↦ text "UNKNOWN" | some v ↦ v ]

-- The calls of `setdefault` in `record_report`, in their order.
unfoldable pub report_payload : ExecutionLaneCommand → Payload → Payload
report_payload c payload =
    let d = set_default "command_id" (text c.command_id) payload in
    let d = set_default "runtime_profile_id" (text c.runtime_profile_id) d in
    let d = set_default "tenant_id" (text c.tenant_id) d in
    let d = set_default "project_id" (text c.project_id) d in
    let d = set_default "lane_mode" (text (mode_value c.lane_mode)) d in
    let d = set_default "adapter_id" (text c.adapter_id) d in
    let d = set_default "venue" (text c.venue) d in
    let d = set_default "venue_account_id" (optional c.venue_account_id) d in
    let d = set_default "instrument_id" (instrument_of c.order_intent) d in
    set_default "payload" (obj no_fields) d
