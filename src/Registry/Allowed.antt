-- ===== src/Registry/Allowed.antt =====
-- What the entries of packages/strategy_registry can be, whatever is registered.
use nautilus_builder.Prelude.{
  Bool, true, false, not, ◌||◌, Option, none, some, String, List, [], ◌∷◌, Result, ok, err,
  raise_if, or_raise, or_raise-eq-ok, >>=-eq-ok, passed, passed_eq, ◌==◌, nat_eq, string_eq, any,
  ◌≡◌, refl, sym, ap, ◌∙◌, arith, Bool-cases, Result-cases, Option-cases, inl, inr,
}
use Prim.Native.Char.{code}
use Prim.Native.String.{char_at}
use Prim.Native.String.append.{nil, cons}
use text.Mathlib.TextEquality.{starts_with_iff, Char-path}
use nautilus_builder.Prelude.Text.{append, starts_with}
use mathlib.Core.Path.{subst}
use mathlib.Core.Option.{some-injective}
use nautilus_builder.Prelude.Dict.{get}
use nautilus_builder.Prelude.Dict.Laws.{Entries, get-Entries, put-Entries}
use nautilus_builder.Registry.{
  RegistryError, not_module_attribute, not_allowlisted, unknown_module, not_compatible,
  StrategyModuleEntry, Modules, allowed_module_prefixes, partition, check_parts,
  validate_module_path, Registration, entry_of, register_safe_module, rule_graph_backtest,
  new_registry, select_for_strategy_spec,
}

-- The path names something with a name in a module of the rule graph.
abbrev pub IsAllowed : String → Type 0
IsAllowed path =
    (rest : String) × (attribute : String) × (path
      ≡ append (append "packages.nautilus_rule_graph." rest) (append ":" attribute))
    × ((attribute == "") ≡ false)

colon_first : (s : String) → append "" (append ":" s) ≡ String.◌∷◌ (char_at ":" 0) s
colon_first s =
    nil (append ":" s)
    ∙ cons (char_at ":" 0) String.[] s
    ∙ ap (λ t. String.◌∷◌ (char_at ":" 0) t) (nil s)

partition-eq-some : (s m a : String) → partition s ≡ some (m, a) → s ≡ append m (append ":" a)
unfolding partition
partition-eq-some String.[] m a h = cc
partition-eq-some (String.◌∷◌ c s) m a h = elim (Bool-cases (code c == 58)) [
  | inl colon ↦
      subst (λ (q : String × String). String.◌∷◌ c s ≡ append q.0 (append ":" q.1))
        (some-injective ("", s) (m, a) (rw (colon, partition) at h))
        (ap (λ d. String.◌∷◌ d s)
            (Char-path c (char_at ":" 0) ((nat_eq.equal_iff (code c) 58).0 colon))
          ∙ sym (colon_first s))
  | inr other ↦ elim (Option-cases (partition s)) [
    | inl absent ↦ cc (rw (other, absent, partition) at h)
    | inr ((m', a'), found) ↦
        subst (λ (q : String × String). String.◌∷◌ c s ≡ append q.0 (append ":" q.1))
          (some-injective (String.◌∷◌ c m', a') (m, a) (rw (other, found, partition) at h))
          (ap (λ t. String.◌∷◌ c t) (partition-eq-some s m' a' found)
            ∙ sym (cons c m' (append ":" a')))
  ]
]

guard_passed : (b : Bool) (e : RegistryError) → raise_if b e ≡ ok tt → b ≡ false
guard_passed true e h = cc
guard_passed false e h = refl

check_parts-IsAllowed :
    (path : String) (o : Option (String × String))
    → partition path ≡ o
    → check_parts o ≡ ok tt
    → IsAllowed path
check_parts-IsAllowed path none e h = cc
check_parts-IsAllowed path (some (m, a)) e h =
    let (named, k) = passed (m == "" || a == "") not_module_attribute _ h in
    let allowed =
      guard_passed (not (any (λ p. starts_with m p) allowed_module_prefixes)) not_allowlisted k in
    let (rest, split) = (starts_with_iff m "packages.nautilus_rule_graph.").0 (ground arith) in
    (
      rest,
      a,
      partition-eq-some path m a e ∙ ap (λ n. append n (append ":" a)) (sym split),
      ground arith,
    )

-- What an entry of the registry is.
pub record IsSafe (id : String) (e : StrategyModuleEntry) : Type 0 where
  pub own_id : e.module_id ≡ id
  pub strategy_class : IsAllowed e.strategy_class_path
  pub config_class : IsAllowed e.config_class_path
  pub reads_only : e.read_only ≡ true
  pub no_authority : e.execution_authority ≡ false
  pub no_live_trading : e.live_trading_enabled ≡ false
  pub no_credentials : e.credentials_required ≡ false

ok_injective : {A : Type 0} {a b : A} → ◌≡◌ {A = Result RegistryError A} (ok a) (ok b) → a ≡ b
ok_injective h = cc

register-Entries :
    (r : Registration) (ms next : Modules)
    → Entries IsSafe ms
    → register_safe_module r ms ≡ ok next
    → Entries IsSafe next
unfolding register_safe_module validate_module_path
register-Entries r ms next safe h =
    let (_, first, h1) = >>=-eq-ok (validate_module_path r.strategy_class_path) _ h in
    let (_, second, same) = >>=-eq-ok (validate_module_path r.config_class_path) _ h1 in
    let allowed =
      check_parts-IsAllowed r.strategy_class_path (partition r.strategy_class_path) refl first in
    let allowed' =
      check_parts-IsAllowed r.config_class_path (partition r.config_class_path) refl second in
    subst (Entries IsSafe) (ok_injective same) (
      put-Entries IsSafe r.module_id (entry_of r) ms safe (record {
        own_id = refl;
        strategy_class = allowed;
        config_class = allowed';
        reads_only = refl;
        no_authority = refl;
        no_live_trading = refl;
        no_credentials = refl;
      }))

-- Registrations in a row; one that is refused changes nothing.
unfoldable pub register_all : List Registration → Modules → Modules
register_all [] ms = ms
register_all (r ∷ rs) ms = elim (register_safe_module r ms) [
  | ok next ↦ register_all rs next
  | err e ↦ register_all rs ms
]

register_all-Entries :
    (rs : List Registration) (ms : Modules)
    → Entries IsSafe ms
    → Entries IsSafe (register_all rs ms)
unfolding register_all
register_all-Entries [] ms safe = safe
register_all-Entries (r ∷ rs) ms safe = elim (Result-cases (register_safe_module r ms)) [
  | inl (next, done) ↦
      rw (done, register_all) (register_all-Entries rs next (register-Entries r ms next safe done))
  | inr (e, refused) ↦ rw (refused, register_all) (register_all-Entries rs ms safe)
]

-- From the registry as it begins, after any registrations, of which those that are refused change
-- nothing: a module that is selected for a specification has the id that was asked for and takes a
-- specification; its classes stand in the rule graph's package; it is read-only, with no authority to
-- execute, no live trading and no credentials.
pub selected-IsSafe :
    (rs : List Registration) (start : Modules) (id : String) (e : StrategyModuleEntry)
    → new_registry ≡ ok start
    → select_for_strategy_spec id (register_all rs start) ≡ ok e
    → IsSafe id e × (e.input_kind ≡ "strategy_spec")
unfolding new_registry select_for_strategy_spec
selected-IsSafe rs start id e begun selected =
    let safe =
      register_all-Entries rs start (register-Entries rule_graph_backtest [] start tt begun) in
    let (found, there, h) =
      >>=-eq-ok (or_raise (get id (register_all rs start)) (unknown_module id)) _ selected in
    let (kind, same) = passed_eq found.input_kind "strategy_spec" (not_compatible id) _ h in
    let known = or_raise-eq-ok (get id (register_all rs start)) (unknown_module id) found there in
    subst (λ e. IsSafe id e × (e.input_kind ≡ "strategy_spec")) (ok_injective same)
      (get-Entries IsSafe id found (register_all rs start) safe known, kind)
