-- ===== src/Auth/Roles.antt =====
-- The roles of packages/auth/capabilities.py form a ladder.
use nautilus_builder.Prelude.{
  Bool, true, false, not, ◌||◌, List, [], ◌∷◌, String, ◌==◌, string_eq, ◌≡◌, ◌⊎◌, inl, inr, refl,
  sym, ap, ◌∙◌, arith, eq_iff,
}
use nautilus_builder.Auth.Capabilities.{
  Capability, strategy_create, strategy_read, strategy_update_draft, strategy_validate,
  strategy_compile, backtest_create, backtest_cancel, evidence_create, evidence_verify,
  promotion_request_shadow, promotion_request_signal_preview, admin_manage_tokens, admin_readiness,
  admin_config, has_capability, viewer_capabilities, capabilities_for_role,
}

-- The roles from the weakest on; a role that is not listed counts as the weakest.
abbrev pub ladder : List String
ladder = "viewer" ∷ "builder_editor" ∷ "backtest_operator" ∷ "promotion_requester" ∷ "admin" ∷ []

-- Whatever a role of the ladder can do, the next one can do, and the administrator can do
-- everything.
pub ladder_grows :
    (c : Capability)
    → ((not (has_capability (capabilities_for_role "viewer") c)
          || has_capability (capabilities_for_role "builder_editor") c)
        ≡ true)
      × ((not (has_capability (capabilities_for_role "builder_editor") c)
            || has_capability (capabilities_for_role "backtest_operator") c)
          ≡ true)
      × ((not (has_capability (capabilities_for_role "backtest_operator") c)
            || has_capability (capabilities_for_role "promotion_requester") c)
          ≡ true)
      × (has_capability (capabilities_for_role "admin") c ≡ true)
unfolding has_capability capabilities_for_role
ladder_grows strategy_create = (refl, refl, refl, refl)
ladder_grows strategy_read = (refl, refl, refl, refl)
ladder_grows strategy_update_draft = (refl, refl, refl, refl)
ladder_grows strategy_validate = (refl, refl, refl, refl)
ladder_grows strategy_compile = (refl, refl, refl, refl)
ladder_grows backtest_create = (refl, refl, refl, refl)
ladder_grows backtest_cancel = (refl, refl, refl, refl)
ladder_grows evidence_create = (refl, refl, refl, refl)
ladder_grows evidence_verify = (refl, refl, refl, refl)
ladder_grows promotion_request_shadow = (refl, refl, refl, refl)
ladder_grows promotion_request_signal_preview = (refl, refl, refl, refl)
ladder_grows admin_manage_tokens = (refl, refl, refl, refl)
ladder_grows admin_readiness = (refl, refl, refl, refl)
ladder_grows admin_config = (refl, refl, refl, refl)

-- A role of the ladder, or another name.
Role-cases :
    (role : String)
    → (role ≡ "viewer")
      ⊎ (role ≡ "builder_editor")
      ⊎ (role ≡ "backtest_operator")
      ⊎ (role ≡ "promotion_requester")
      ⊎ (role ≡ "admin")
      ⊎ ((role == "admin") ≡ false) × (capabilities_for_role role ≡ viewer_capabilities)
unfolding capabilities_for_role
Role-cases role = ground (
  arith,
  eq_iff role "viewer",
  eq_iff role "builder_editor",
  eq_iff role "backtest_operator",
  eq_iff role "promotion_requester",
  eq_iff role "admin",
)

-- The four capabilities that every role has, and that only the administrator has.
abbrev pub OnlyAdmin : List Capability → Bool → Type 0
OnlyAdmin cs admin =
    (has_capability cs strategy_read ≡ true)
    × (has_capability cs admin_manage_tokens ≡ admin)
    × (has_capability cs admin_readiness ≡ admin)
    × (has_capability cs admin_config ≡ admin)

other_only :
    (role : String)
    → (role == "admin") ≡ false
    → capabilities_for_role role ≡ viewer_capabilities
    → OnlyAdmin (capabilities_for_role role) (role == "admin")
unfolding has_capability
other_only role e f = (
  ap (λ cs. has_capability cs strategy_read) f,
  ap (λ cs. has_capability cs admin_manage_tokens) f ∙ sym e,
  ap (λ cs. has_capability cs admin_readiness) f ∙ sym e,
  ap (λ cs. has_capability cs admin_config) f ∙ sym e,
)

-- By whatever name of a role, a known one or not, one can read strategies, and the three capabilities
-- of administration belong to the role `admin` alone.
pub admin_only : (role : String) → OnlyAdmin (capabilities_for_role role) (role == "admin")
unfolding has_capability capabilities_for_role
admin_only role = elim (Role-cases role) [
  | inl e ↦ rw e (refl, refl, refl, refl)
  | inr (inl e) ↦ rw e (refl, refl, refl, refl)
  | inr (inr (inl e)) ↦ rw e (refl, refl, refl, refl)
  | inr (inr (inr (inl e))) ↦ rw e (refl, refl, refl, refl)
  | inr (inr (inr (inr (inl e)))) ↦ rw e (refl, refl, refl, refl)
  | inr (inr (inr (inr (inr (e, f))))) ↦ other_only role e f
]
