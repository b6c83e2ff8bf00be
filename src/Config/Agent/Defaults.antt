-- ===== src/Config/Agent/Defaults.antt =====
-- `delete_default` and the maps of references.
use volttron_core.Prelude.{String, ◌≡◌, refl, true, false, arith, string_eq, beq_refl}
use volttron_core.Py.Dict.{lookup, has, remove, lookup-remove, has-remove, lookup-eq-none}
use volttron_core.Py.Exec.{guard, ◌>>=◌}
use volttron_core.Py.Result.{raised, key_error}
use volttron_core.Py.Text.{lower}
use volttron_core.Config.Store.{dict_pop, dict_item}
use volttron_core.Config.Agent.{AgentConfig}
use volttron_core.Config.Agent.Preset.{drop_default, delete_default}
use volttron_core.Config.Agent.Current.{IsCurrent}

-- The default is gone, and nothing else has changed.
abbrev dropped : String → AgentConfig → AgentConfig
dropped key s = record s {
  default_store = remove key s.default_store;
  default_name_map = remove key s.default_name_map;
}

drop_default-raises :
    (key : String) (s : AgentConfig)
    → has key s.default_store ≡ true
    → has key s.default_name_map ≡ true
    → has key s.store ≡ false
    → drop_default key s ≡ (raised key_error, dropped key s)
unfolding drop_default dict_pop dict_item lookup remove ◌>>=◌
drop_default-raises key s default name missing =
    rw (default, name, missing) (rw (lookup-eq-none key s.store missing) refl)

delete_default_unready :
    (config_name : String) (s : AgentConfig)
    → s.initialized ≡ false
    → delete_default config_name s ≡ drop_default (lower config_name) s
unfolding delete_default guard ◌>>=◌
delete_default_unready config_name s unready = simp unready refl

-- `delete_default` cannot succeed before the agent has its configurations, when it is meant to be
-- called: for a default in use it raises `KeyError` once the default is gone, and leaves the
-- references of the default behind.
pub delete_default_stale :
    (config_name : String) (s : AgentConfig)
    → IsCurrent s
    → s.initialized ≡ false
    → has (lower config_name) s.default_store ≡ true
    → has (lower config_name) s.default_name_map ≡ true
    → has (lower config_name) s.store ≡ false
    → (s' : AgentConfig) × (delete_default config_name s ≡ (raised key_error, s'))
      × (has (lower config_name) s'.default_store ≡ false)
      × (¬ (IsCurrent s'))
unfolding has
delete_default_stale config_name s h unready default name missing =
    let key = lower config_name in
    (
      dropped key s,
      rw (delete_default_unready config_name s unready)
          (drop_default-raises key s default name missing),
      ground (arith, has-remove key key s.default_store, beq_refl key),
      λ h'. ground (
        arith,
        h.in_effect key,
        h'.in_effect key,
        default,
        missing,
        lookup-remove key key s.default_store,
        beq_refl key,
      ),
    )
