-- ===== src/RuntimeEvents/Examples.antt =====
-- The theorem on packages/runtime_events at events of two jobs.
use nautilus_builder.Prelude.{none, String, List, [], ◌∷◌, map, ◌≡◌, refl}
use nautilus_builder.Prelude.Dict.{get, put}
use nautilus_builder.Prelude.Text.{decimal, characters}
use nautilus_builder.Json.{number, set_default}
use nautilus_builder.RuntimeEvents.Stream.{
  RuntimeEvent, replay, append_to, Appended, event_id_of, event_of, append_event,
}
use nautilus_builder.RuntimeEvents.Replay.{append_all, events_from, append_all_lem}

abbrev said : String → String → Appended
said job_id message = record {
  job_id = job_id;
  stage = "RUNNING";
  level = "info";
  message = message;
  progress_pct = number "10.0";
  actor_type = "system";
  actor_id = "builder-runtime";
  metadata = none;
  now = "10:00";
}

abbrev calls : List Appended
calls = said "a" "one" ∷ said "b" "two" ∷ said "a" "three" ∷ []

ids_test :
    map (λ (e : RuntimeEvent). e.event_id) (replay "a" (append_all calls []))
    ≡ "a_evt_000001" ∷ "a_evt_000002" ∷ []
unfolding get put decimal characters set_default replay append_to event_id_of event_of append_event
    append_all
ids_test = refl

append_all_lem_example :
    replay "a" (append_all calls []) ≡ events_from 0 (said "a" "one" ∷ said "a" "three" ∷ [])
append_all_lem_example = append_all_lem "a" calls
