-- ===== src/ExecutionLane/Views.antt =====
-- The methods of `ExecutionLaneService` that only read: the lists and the snapshot.
use nautilus_builder.Prelude.{
  ℕ, Bool, true, false, ◌&&◌, Option, none, some, String, List, ◌==◌, string_eq, length, select,
  count, any, map,
}
use nautilus_builder.Prelude.Text.{given}
use nautilus_builder.Prelude.Dict.{values}
use nautilus_builder.ExecutionLane.Profile.{
  ExecutionLaneProfile, ExecutionLaneMode, paper, mode_eq, is_live_enabled,
}
use nautilus_builder.ExecutionLane.Command.{
  ExecutionLaneCommand, queued, claimed, reported, status_eq,
}
use nautilus_builder.ExecutionLane.Report.{ExecutionLaneReport}
use nautilus_builder.ExecutionLane.Slots.{
  ExecutionCredentialSlot, ExecutionLaneSession, SessionStatus, running,
}
use nautilus_builder.ExecutionLane.Service.{ExecutionLaneService}

-- One `if filter is not None: items = [item for item in items if item.field == filter]`
unfoldable pub narrow {ℓ} : {A : Type ℓ} → Option String → (A → String) → List A → List A
narrow none owner items = items
narrow (some value) owner items = select (λ item. owner item == value) items

unfoldable pub list_profiles : Option String → ExecutionLaneService → List ExecutionLaneProfile
unfolding narrow
list_profiles project_id s = narrow project_id (λ p. p.project_id) (values s.profiles)

unfoldable pub list_commands :
    Option String → Option String → ExecutionLaneService → List ExecutionLaneCommand
unfolding narrow
list_commands runtime_profile_id project_id s =
    narrow project_id (λ c. c.project_id)
      (narrow runtime_profile_id (λ c. c.runtime_profile_id) (values s.commands))

unfoldable pub list_sessions :
    Option String → Option String → ExecutionLaneService → List ExecutionLaneSession
unfolding narrow
list_sessions runtime_profile_id project_id s =
    narrow project_id (λ c. c.project_id)
      (narrow runtime_profile_id (λ c. c.runtime_profile_id) (values s.sessions))

pub record VenueBinding : Type 0 where
  pub runtime_profile_id : String
  pub adapter_id : Option String
  pub venue : Option String
  pub venue_account_id : Option String
  pub lane_mode : ExecutionLaneMode
  pub enabled : Bool

-- The entries of the snapshot that depend on the state.
pub record Snapshot : Type 0 where
  pub profiles : ℕ
  pub queued_commands : ℕ
  pub claimed_commands : ℕ
  pub reported_commands : ℕ
  pub reports : ℕ
  pub sessions : ℕ
  pub running_sessions : ℕ
  pub credential_slots : ℕ
  pub may_submit_order : Bool
  pub venue_bindings : List VenueBinding
  pub execution_lane_ui_enabled : Bool
  pub paper_controls_enabled : Bool
  pub live_controls_enabled : Bool

abbrev is_running : SessionStatus → Bool
is_running running = true
is_running _ = false

abbrev bindings : List ExecutionLaneProfile → List VenueBinding
bindings profiles =
    map
      (λ p. record {
        runtime_profile_id = p.runtime_profile_id;
        adapter_id = p.adapter_id;
        venue = p.venue;
        venue_account_id = p.venue_account_id;
        lane_mode = p.lane_mode;
        enabled = p.enabled;
      })
      (select (λ p. given p.adapter_id && given p.venue) profiles)

unfoldable pub snapshot : Option String → Option String → ExecutionLaneService → Snapshot
unfolding list_profiles list_commands list_sessions
snapshot runtime_profile_id project_id s =
    let commands = list_commands runtime_profile_id project_id s in
    let reports =
      narrow project_id (λ (r : ExecutionLaneReport). r.project_id)
        (narrow runtime_profile_id (λ r. r.runtime_profile_id) (values s.reports)) in
    let sessions = list_sessions runtime_profile_id project_id s in
    let profiles =
      narrow runtime_profile_id (λ (p : ExecutionLaneProfile). p.runtime_profile_id)
        (list_profiles project_id s) in
    let slots =
      narrow project_id (λ (c : ExecutionCredentialSlot). c.project_id)
        (values s.credential_slots) in
    record {
      profiles = length profiles;
      queued_commands = count (λ c. c.status == queued) commands;
      claimed_commands = count (λ c. c.status == claimed) commands;
      reported_commands = count (λ c. c.status == reported) commands;
      reports = length reports;
      sessions = length sessions;
      running_sessions = count (λ x. is_running x.lifecycle_status) sessions;
      credential_slots = length slots;
      may_submit_order = any (λ c. c.may_submit_order) commands;
      venue_bindings = bindings profiles;
      execution_lane_ui_enabled = any (λ p. p.ui_enabled) profiles;
      paper_controls_enabled =
          any (λ p. p.enabled && p.paper_controls_enabled && p.lane_mode == paper) profiles;
      live_controls_enabled = any (λ p. p.live_controls_enabled && is_live_enabled p) profiles;
    }
