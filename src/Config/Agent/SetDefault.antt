-- ===== src/Config/Agent/SetDefault.antt =====
-- The maps of references under `set_default`.
use text.Mathlib.TextEquality.{eq_iff}
use volttron_core.Prelude.{
  String, ◌≡◌, refl, true, false, not, some, arith, string_eq, beq_refl, Bool-cases, inl, inr,
}
use volttron_core.Py.Dict.{Each-insert, has, insert, lookup-insert, lookup-eq-none}
use volttron_core.Py.Exec.{pure, ◌>>=◌}
use volttron_core.Py.Keeps.{Keeps, Keeps-bind, Keeps-then, Keeps-gets, Keeps-guard}
use volttron_core.Py.Text.{lower}
use volttron_core.Py.Value.{Value}
use volttron_core.Config.Agent.{AgentConfig}
use volttron_core.Config.Agent.Preset.{set_default, store_default, is_contents}
use volttron_core.Config.Agent.Current.{IsCurrent, IsCurrentBut, update_refs-IsCurrent}

-- A default is set for a name that has no stored configuration.
abbrev defaulted : String → Value → String → AgentConfig → AgentConfig
defaulted key contents config_name s = record s {
  default_store = insert key contents s.default_store;
  default_name_map = insert key config_name s.default_name_map;
}

defaulted-IsCurrent :
    (key config_name : String) (contents : Value) (s : AgentConfig)
    → IsCurrent s
    → has key s.store ≡ true
    → IsCurrent (defaulted key contents config_name s)
unfolding has
defaulted-IsCurrent key config_name contents s h there = record {
  indexed = record { distinct = h.indexed.distinct; exact = h.indexed.exact };
  in_effect = λ name. ground (
    arith,
    h.in_effect name,
    there,
    lookup-insert key name contents s.default_store,
    eq_iff key name,
  );
  defaults = Each-insert (λ _. Unit {0}) key contents s.default_store tt h.defaults;
}

defaulted-IsCurrentBut :
    (key config_name : String) (contents : Value) (s : AgentConfig)
    → IsCurrent s
    → has key s.store ≡ false
    → IsCurrentBut key (some contents) (defaulted key contents config_name s)
unfolding has
defaulted-IsCurrentBut key config_name contents s h missing = record {
  indexed = record { distinct = h.indexed.distinct; exact = h.indexed.exact };
  in_effect = λ name other.
      ground (arith, h.in_effect name, other, lookup-insert key name contents s.default_store);
  absent = lookup-eq-none key s.store missing;
  default_is = rw (lookup-insert key key contents s.default_store, beq_refl key) refl;
  defaults = Each-insert (λ _. Unit {0}) key contents s.default_store tt h.defaults;
}

store_default-IsCurrent :
    (config_name : String) (contents : Value) → Keeps IsCurrent (store_default config_name contents)
unfolding store_default pure ◌>>=◌
store_default-IsCurrent config_name contents = record {
  at = λ s h.
      let key = lower config_name in
      elim (Bool-cases (has key s.store)) [
        | inl there ↦ rw there (defaulted-IsCurrent key config_name contents s h there)
        | inr missing ↦
            let (t, e, current) =
              update_refs-IsCurrent key contents (defaulted key contents config_name s)
                (defaulted-IsCurrentBut key config_name contents s h missing) in
            rw missing (rw e current)
      ];
}

-- `set_default` keeps the references current too, also when it raises.
pub set_default-IsCurrent :
    (config_name : String) (contents : Value) (s : AgentConfig)
    → IsCurrent s
    → IsCurrent (set_default config_name contents s).1
unfolding set_default
set_default-IsCurrent config_name contents =
    (Keeps-bind _ _ (Keeps-gets _) λ ready. Keeps-then _ _ (Keeps-guard (not ready) _) (
      Keeps-then _ _ (Keeps-guard (is_contents contents) _)
        (store_default-IsCurrent config_name contents))).at
