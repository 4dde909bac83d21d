-- ===== src/ExecutionLane/Errors.antt =====
-- The exceptions that packages/execution_lane raises, and the keys that its payloads may not hold.
use nautilus_builder.Prelude.{Bool, true, false, List, [], ◌∷◌, ◌++◌, String, not, Result}
use nautilus_builder.Prelude.{◌≡◌, refl, ◌&&◌, if◌then◌else◌}

pub data Error : Type 0 where
  -- what pydantic reports of a payload that does not fit the fields
  invalid_payload : Error
  constraint : String → Error
  secrets_forbidden coupling_forbidden : Error
  -- `ExecutionLaneProfile.validate_authority`
  missing_binding : List String → Error
  paper_live_authority paper_not_enabled live_controls_without_authority : Error
  missing_gates : List String → Error
  -- `ExecutionLaneService`
  key_error project_scope : Error
  profile_required scope_mismatch mode_mismatch adapter_mismatch venue_mismatch : Error
  account_mismatch not_live_enabled risk_profile_mismatch slot_mismatch : Error
  evidence_mismatch : String → Error
  none_queued not_queued profile_id_mismatch : Error
  slot_not_registered slot_scope slot_profile slot_adapter slot_mode : Error

-- A validator that returns nothing, or raises.
abbrev pub Check : Type 0
Check = Result Error (Unit {0})

-- `_SECRET_KEYS`
abbrev pub secret_keys : List String
secret_keys =
    "api_key" ∷ "secret" ∷ "secret_key" ∷ "password" ∷ "private_key" ∷ "credential" ∷ "credentials"
    ∷ "authorization" ∷ "token" ∷ []

-- `_STRATEGY_COUPLING_KEYS`
abbrev pub strategy_coupling_keys : List String
strategy_coupling_keys =
    "strategy_runtime_id" ∷ "strategy_process_id" ∷ "strategy_lane_id" ∷ "strategy_worker_id"
    ∷ "strategy_actor_id" ∷ []

-- `if test: missing.append(name)`
unfoldable pub gate : Bool → String → List String
gate test name = if test then name ∷ [] else []

-- `not missing`
unfoldable pub no_names : List String → Bool
no_names [] = true
no_names (_ ∷ _) = false

pub no_names-append : (xs ys : List String) → no_names (xs ++ ys) ≡ (no_names xs && no_names ys)
unfolding no_names
no_names-append [] ys = refl
no_names-append (x ∷ xs) ys = refl

pub no_names-gate : (test : Bool) (name : String) → no_names (gate test name) ≡ not test
unfolding no_names gate
no_names-gate true name = refl
no_names-gate false name = refl

-- A list of gates is empty exactly if no test of it fires.
pub ruleset gate_laws = (no_names-append, no_names-gate)
