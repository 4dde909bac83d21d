-- ===== src/Auth/Capabilities.antt =====
-- packages/auth/capabilities.py: the capabilities and the sets of them that the roles have.
use nautilus_builder.Prelude.{
  Bool, List, [], ◌∷◌, ◌++◌, String, any, ◌==◌, string_eq, if◌then◌else◌,
}

pub data Capability : Type 0 where
  strategy_create strategy_read strategy_update_draft strategy_validate strategy_compile :
      Capability
  backtest_create backtest_cancel evidence_create evidence_verify : Capability
  promotion_request_shadow promotion_request_signal_preview : Capability
  admin_manage_tokens admin_readiness admin_config : Capability

-- The text that an enum's member is, by which Python compares it.
abbrev pub value : Capability → String
value strategy_create = "strategy:create"
value strategy_read = "strategy:read"
value strategy_update_draft = "strategy:update_draft"
value strategy_validate = "strategy:validate"
value strategy_compile = "strategy:compile"
value backtest_create = "backtest:create"
value backtest_cancel = "backtest:cancel"
value evidence_create = "evidence:create"
value evidence_verify = "evidence:verify"
value promotion_request_shadow = "promotion:request_shadow"
value promotion_request_signal_preview = "promotion:request_signal_preview"
value admin_manage_tokens = "admin:manage_tokens"
value admin_readiness = "admin:readiness"
value admin_config = "admin:config"

abbrev pub viewer_capabilities : List Capability
viewer_capabilities = strategy_read ∷ []

abbrev pub builder_editor_capabilities : List Capability
builder_editor_capabilities =
    strategy_create ∷ strategy_read ∷ strategy_update_draft ∷ strategy_validate ∷ strategy_compile
    ∷ []

abbrev pub backtest_operator_capabilities : List Capability
backtest_operator_capabilities =
    builder_editor_capabilities
    ++ backtest_create ∷ backtest_cancel ∷ evidence_create ∷ evidence_verify ∷ []

abbrev pub promotion_requester_capabilities : List Capability
promotion_requester_capabilities =
    backtest_operator_capabilities
    ++ promotion_request_shadow ∷ promotion_request_signal_preview ∷ []

-- `set(Capability)`
abbrev pub admin_capabilities : List Capability
admin_capabilities =
    promotion_requester_capabilities ++ admin_manage_tokens ∷ admin_readiness ∷ admin_config ∷ []

unfoldable pub has_capability : List Capability → Capability → Bool
has_capability user_capabilities required = any (λ c. value c == value required) user_capabilities

unfoldable pub capabilities_for_role : String → List Capability
capabilities_for_role role =
    if role == "viewer"
    then viewer_capabilities
    else if role == "builder_editor"
    then builder_editor_capabilities
    else if role == "backtest_operator"
    then backtest_operator_capabilities
    else if role == "promotion_requester"
    then promotion_requester_capabilities
    else if role == "admin"
    then admin_capabilities
    else viewer_capabilities
