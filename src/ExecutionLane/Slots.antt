-- ===== src/ExecutionLane/Slots.antt =====
-- What the service keeps beside commands: credential slots (packages/execution_lane/credentials.py)
-- and sessions (packages/execution_lane/sessions.py), as their records.
use nautilus_builder.Prelude.{Bool, Option, String, List}
use nautilus_builder.ExecutionLane.Profile.{ExecutionLaneMode}

-- `secrets_storage` and `browser_secret_echo` are literals, and have no field here.
pub record ExecutionCredentialSlot : Type 0 where
  pub credential_slot_ref : String
  pub tenant_id : String
  pub project_id : String
  pub runtime_profile_id : String
  pub adapter_id : String
  pub venue : String
  pub lane_mode : ExecutionLaneMode
  pub requested_by : String
  pub env_file_path : String
  pub redacted_keys : List String
  pub fingerprint : String

-- The statuses of a session: the five of `Literal[…]`, and the two more that a stop can write.
pub data SessionStatus : Type 0 where
  initialized running stopped disposed failed not_found stop_timeout : SessionStatus

-- The fields that the service and the life of a session read or write.
pub record ExecutionLaneSession : Type 0 where
  pub session_id : String
  pub command_id : String
  pub runtime_profile_id : String
  pub tenant_id : String
  pub project_id : String
  pub lane_mode : ExecutionLaneMode
  pub status : SessionStatus
  pub lifecycle_status : SessionStatus
  pub worker_id : String
  pub started_at : String
  pub stopped_at : Option String
  pub disposed_at : Option String
  pub lifecycle_events : List String
  pub live_trading_enabled : Bool
  pub execution_authority : Bool
  pub may_submit_order : Bool
