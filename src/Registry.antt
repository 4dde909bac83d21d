-- ===== src/Registry.antt =====
-- packages/strategy_registry: the metadata of external strategies and of strategy modules. No module is
-- ever imported.
pub mod Allowed
mod Examples
use nautilus_builder.Prelude.{
  ℕ, Bool, true, false, not, ◌&&◌, ◌||◌, Option, none, some, String, List, [], ◌∷◌, Result, ok, err,
  ◌>>=◌, ◌>>◌, raise_if, or_raise, ◌==◌, nat_eq, string_eq, any, if◌then◌else◌,
}
use nautilus_builder.Prelude.Dict.{Dict, values, get, put}
use Prim.Native.Char.{Char, code}
use nautilus_builder.Prelude.Text.{starts_with}

pub data RegistryError : Type 0 where
  unknown_strategy : RegistryError
  catalog_only : RegistryError
  not_module_attribute : RegistryError
  not_allowlisted : RegistryError
  unknown_module : String → RegistryError
  not_compatible : String → RegistryError

pub data ExternalStrategyClassification : Type 0 where
  native_strategy_spec daedalus_signal_strategy daedalus_gate_aware_strategy nautilus_raw_strategy
        unknown_raw_code unsafe_execution_strategy :
      ExternalStrategyClassification

pub record ExternalStrategyEntry : Type 0 where
  pub strategy_id : String
  pub source : String
  pub classification : ExternalStrategyClassification
  pub read_only : Bool
  pub editable_in_ux : Bool
  pub import_allowed : Bool

pub record ImportedDraft : Type 0 where
  pub stage : String
  pub status : String
  pub version : String
  pub source_ref : String
  pub live_ready : Bool

-- The catalog entries are read-only, and not edited.
abbrev catalog_entry :
    String → String → ExternalStrategyClassification → Bool → String × ExternalStrategyEntry
catalog_entry id source classification import_allowed = (
  id,
  record {
    strategy_id = id;
    source = source;
    classification = classification;
    read_only = true;
    editable_in_ux = false;
    import_allowed = import_allowed;
  },
)

abbrev pub external_entries : Dict String ExternalStrategyEntry
external_entries =
    catalog_entry "liquidation_cascade_reversal" "daedalus" daedalus_signal_strategy true
    ∷ catalog_entry "unknown_python_strategy" "nautilus" unknown_raw_code false
    ∷ catalog_entry "unsafe_executor" "daedalus" unsafe_execution_strategy false
    ∷ []

unfoldable pub get_external_strategy : String → Result RegistryError ExternalStrategyEntry
get_external_strategy id = or_raise (get id external_entries) unknown_strategy

unfoldable pub import_as_draft : String → Result RegistryError ImportedDraft
unfolding get_external_strategy
import_as_draft id = do
  entry ← get_external_strategy id
  raise_if (not entry.import_allowed) catalog_only
      >> ok (record {
        stage = "draft";
        status = "imported";
        version = "0.1.0-draft.1";
        source_ref = entry.strategy_id;
        live_ready = false;
      })

pub record StrategyModuleEntry : Type 0 where
  pub module_id : String
  pub strategy_class_path : String
  pub config_class_path : String
  pub input_kind : String
  pub read_only : Bool
  pub execution_authority : Bool
  pub live_trading_enabled : Bool
  pub credentials_required : Bool
  pub resolution_mode : String

abbrev pub Modules : Type 0
Modules = Dict String StrategyModuleEntry

abbrev pub allowed_module_prefixes : List String
allowed_module_prefixes = "packages.nautilus_rule_graph." ∷ []

abbrev pub onto_name : Char → Option (String × String) → Option (String × String)
onto_name c none = none
onto_name c (some (m, a)) = some (String.◌∷◌ c m, a)

-- `module_path.partition(":")`; `none` is the empty separator.
unfoldable pub partition : String → Option (String × String)
partition String.[] = none
partition (String.◌∷◌ c s) =
    let rest = onto_name c (partition s) in if code c == 58 then some ("", s) else rest

abbrev pub check_parts : Option (String × String) → Result RegistryError (Unit {0})
check_parts none = err not_module_attribute
check_parts (some (m, a)) =
    raise_if (m == "" || a == "") not_module_attribute
    >> raise_if (not (any (λ p. starts_with m p) allowed_module_prefixes)) not_allowlisted

unfoldable pub validate_module_path : String → Result RegistryError (Unit {0})
unfolding partition
validate_module_path path = check_parts (partition path)

pub record Registration : Type 0 where
  pub module_id : String
  pub strategy_class_path : String
  pub config_class_path : String
  pub input_kind : String

abbrev pub entry_of : Registration → StrategyModuleEntry
entry_of r = record {
  module_id = r.module_id;
  strategy_class_path = r.strategy_class_path;
  config_class_path = r.config_class_path;
  input_kind = r.input_kind;
  read_only = true;
  execution_authority = false;
  live_trading_enabled = false;
  credentials_required = false;
  resolution_mode = "metadata_only";
}

unfoldable pub register_safe_module : Registration → Modules → Result RegistryError Modules
register_safe_module r ms =
    validate_module_path r.strategy_class_path
    >> (validate_module_path r.config_class_path >> ok (put r.module_id (entry_of r) ms))

abbrev pub rule_graph_backtest : Registration
rule_graph_backtest = record {
  module_id = "rule_graph_backtest";
  strategy_class_path = "packages.nautilus_rule_graph.strategy:RuleGraphBacktestStrategy";
  config_class_path = "packages.nautilus_rule_graph.strategy:RuleGraphBacktestStrategyConfig";
  input_kind = "strategy_spec";
}

-- `StrategyModuleRegistryService.__init__`
unfoldable pub new_registry : Result RegistryError Modules
unfolding register_safe_module
new_registry = register_safe_module rule_graph_backtest []

unfoldable pub select_for_strategy_spec :
    String → Modules → Result RegistryError StrategyModuleEntry
select_for_strategy_spec id ms = do
  entry ← or_raise (get id ms) (unknown_module id)
  raise_if (not (entry.input_kind == "strategy_spec")) (not_compatible id) >> ok entry
