-- ===== src/ExecutionLane/Runner.antt =====
-- `NativeTradingNodeSessionRunner` of packages/execution_lane/sessions.py: the nodes that run, and the
-- calls made of each node, in their order. A node is NautilusTrader's; here it is the number of its
-- making. Whether the thread outlives the join of a stop is an argument, and so are whether a start
-- stands in an event loop, and whether the build of the node returns. Its `stop` and `dispose` are taken to
-- return.
use nautilus_builder.Prelude.{
  ℕ, suc, Bool, true, false, ◌||◌, Option, none, some, String, List, [], ◌∷◌, ◌++◌, Result, ok, err,
  if◌then◌else◌, string_eq, nat_eq,
}
use nautilus_builder.Prelude.Dict.{Dict, get, put, remove}
use nautilus_builder.ExecutionLane.Slots.{
  ExecutionLaneSession, SessionStatus, running, disposed, not_found, stop_timeout,
}

pub data RunnerError : Type 0 where
  in_event_loop factories_required build_failed : RunnerError

-- What the runner does with a node and its thread, which runs `node.run` on its own from `start_thread` on;
-- `joined` is the join of `stop`, and whether the thread is alive after it.
pub data NodeCall : Type 0 where
  build start_thread stop dispose : NodeCall
  joined : Bool → NodeCall

pub record Runner : Type 0 where
  pub made : ℕ
  pub sessions : Dict String ℕ
  pub trace : List (ℕ × NodeCall)

abbrev pub new : Runner
new = record { made = 0; sessions = []; trace = [] }

-- `not factories`
abbrev is_empty : List String → Bool
is_empty [] = true
is_empty (_ ∷ _) = false

-- The state after a node was built, and its thread started.
abbrev pub started : String → Runner → Runner
started session_id r = record {
  made = suc r.made;
  sessions = put session_id r.made r.sessions;
  trace = r.trace ++ (r.made, build) ∷ (r.made, start_thread) ∷ [];
}

-- The state after `node.build` has raised: no session.
abbrev pub unbuilt : Runner → Runner
unbuilt r = record {
  made = suc r.made;
  sessions = r.sessions;
  trace = r.trace ++ (r.made, build) ∷ [];
}

-- `start`: the lists are the factories' names; `builds` tells whether `node.build` returns.
unfoldable pub start :
    Bool
    → Bool
    → String
    → List String
    → List String
    → Runner
    → Result RunnerError SessionStatus × Runner
start in_loop builds session_id data_factories exec_factories r =
    if in_loop
    then (err in_event_loop, r)
    else if is_empty data_factories || is_empty exec_factories
    then (err factories_required, r)
    else if builds
    then (ok running, started session_id r)
    else (err build_failed, unbuilt r)

-- The calls of the node and its thread in `stop`, and the status that it ends with.
abbrev pub ending : Bool → ℕ → List (ℕ × NodeCall)
ending true node = (node, stop) ∷ (node, joined true) ∷ []
ending false node = (node, stop) ∷ (node, joined false) ∷ (node, dispose) ∷ []

abbrev pub final_status : Bool → SessionStatus
final_status true = stop_timeout
final_status false = disposed

-- `stop`
unfoldable pub stop_session : Bool → String → Runner → SessionStatus × Runner
stop_session alive session_id r = elim (get session_id r.sessions) [
  | none ↦ (not_found, r)
  | some node ↦ (
    final_status alive,
    record {
      made = r.made;
      sessions = remove session_id r.sessions;
      trace = r.trace ++ ending alive node;
    },
  )
]

-- `now if status == "DISPOSED" else None`
abbrev disposed_time : String → SessionStatus → Option String
disposed_time now disposed = some now
disposed_time now _ = none

-- `stopped_session`; the status is written by `model_copy`, without validation.
unfoldable pub stopped_session :
    String → String → SessionStatus → List String → ExecutionLaneSession → ExecutionLaneSession
stopped_session now worker_id status events session = record session {
  status = status;
  lifecycle_status = status;
  worker_id = worker_id;
  stopped_at = some now;
  disposed_at = disposed_time now status;
  lifecycle_events = session.lifecycle_events ++ events;
}
