-- ===== src/RuntimeEvents/Stream.antt =====
-- packages/runtime_events: `RuntimeEvent` of models.py, `InMemoryRuntimeEventStream` of stream.py and
-- `RuntimeEventService` of service.py. The clock's text is an argument, and a percentage a value of
-- the payload.
use nautilus_builder.Prelude.{
  ℕ, suc, Option, none, some, String, List, [], ◌∷◌, ◌++◌, length, string_eq,
}
use nautilus_builder.Prelude.Text.{append, padded}
use nautilus_builder.Prelude.Dict.{Dict, get, put}
use nautilus_builder.Json.{Value, Payload, set_default}

pub record RuntimeEvent : Type 0 where
  pub event_id : String
  pub job_id : String
  pub actor_type : String
  pub actor_id : String
  pub stage : String
  pub level : String
  pub message : String
  pub timestamp : String
  pub metadata : Payload
  pub progress_pct : Value

abbrev pub Stream : Type 0
Stream = Dict String (List RuntimeEvent)

-- `InMemoryRuntimeEventStream.replay`
unfoldable pub replay : String → Stream → List RuntimeEvent
replay job_id s = elim (get job_id s) [ none ↦ [] | some events ↦ events ]

-- `InMemoryRuntimeEventStream.append`
unfoldable pub append_to : RuntimeEvent → Stream → Stream
unfolding replay
append_to event s = put event.job_id (replay event.job_id s ++ event ∷ []) s

-- The arguments of `append_event`, with their defaults filled in, and the clock.
pub record Appended : Type 0 where
  pub job_id : String
  pub stage : String
  pub level : String
  pub message : String
  pub progress_pct : Value
  pub actor_type : String
  pub actor_id : String
  pub metadata : Option Payload
  pub now : String

-- `f"{job_id}_evt_{sequence:06d}"`
unfoldable pub event_id_of : String → ℕ → String
unfolding padded
event_id_of job_id sequence = append job_id (append "_evt_" (padded 6 sequence))

abbrev pub or_empty : Option Payload → Payload
or_empty none = []
or_empty (some d) = d

-- The event that `append_event` makes where the job has `n` events.
unfoldable pub event_of : Appended → ℕ → RuntimeEvent
event_of a n = record {
  event_id = event_id_of a.job_id (suc n);
  job_id = a.job_id;
  actor_type = a.actor_type;
  actor_id = a.actor_id;
  stage = a.stage;
  level = a.level;
  message = a.message;
  timestamp = a.now;
  metadata = set_default "progress_pct" a.progress_pct (or_empty a.metadata);
  progress_pct = a.progress_pct;
}

-- `RuntimeEventService.append_event`
unfoldable pub append_event : Appended → Stream → RuntimeEvent × Stream
unfolding event_of append_to replay
append_event a s = let event = event_of a (length (replay a.job_id s)) in (event, append_to event s)
