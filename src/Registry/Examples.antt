-- ===== src/Registry/Examples.antt =====
-- The registry of packages/strategy_registry with one more module, and one that is refused.
use nautilus_builder.Prelude.{[], ◌∷◌, ok, err, string_eq, nat_eq, ◌≡◌, refl}
use nautilus_builder.Prelude.Dict.{get, put}
use nautilus_builder.Registry.{
  catalog_only, unknown_strategy, not_module_attribute, not_allowlisted, Modules, Registration,
  entry_of, register_safe_module, rule_graph_backtest, new_registry, select_for_strategy_spec,
  import_as_draft, validate_module_path,
}
use nautilus_builder.Registry.Allowed.{IsSafe, register_all, selected-IsSafe}

abbrev second : Registration
second = record {
  module_id = "second";
  strategy_class_path = "packages.nautilus_rule_graph.x:S";
  config_class_path = "packages.nautilus_rule_graph.x:C";
  input_kind = "strategy_spec";
}

abbrev foreign : Registration
foreign = record second { strategy_class_path = "os:system" }

abbrev start : Modules
start = ("rule_graph_backtest", entry_of rule_graph_backtest) ∷ []

new_registry_start : new_registry ≡ ok start
unfolding new_registry validate_module_path put
new_registry_start = refl

second_selected :
    select_for_strategy_spec "second" (register_all (second ∷ foreign ∷ []) start)
    ≡ ok (entry_of second)
unfolding select_for_strategy_spec register_all get register_safe_module validate_module_path put
second_selected = refl

selected-IsSafe_example : IsSafe "second" (entry_of second) × (second.input_kind ≡ "strategy_spec")
selected-IsSafe_example =
    selected-IsSafe (second ∷ foreign ∷ []) start "second" (entry_of second) new_registry_start
      second_selected

-- Paths that are refused, and drafts.
refusals :
    (validate_module_path "os:system" ≡ err not_allowlisted)
    × (validate_module_path "packages.nautilus_rule_graph.x" ≡ err not_module_attribute)
    × (validate_module_path ":S" ≡ err not_module_attribute)
    × (import_as_draft "unsafe_executor" ≡ err catalog_only)
    × (import_as_draft "nothing" ≡ err unknown_strategy)
unfolding validate_module_path import_as_draft get
refusals = (refl, refl, refl, refl, refl)
