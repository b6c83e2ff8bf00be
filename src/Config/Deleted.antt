-- ===== src/Config/Deleted.antt =====
-- `delete` of the configuration store.
use volttron_core.Prelude.{String, ◌≡◌, Bool, none, some, [], ◌∷◌, arith, string_eq, beq_refl}
use volttron_core.Py.Dict.{lookup, remove, lookup-insert, lookup-remove}
use volttron_core.Py.Exec.{modify, ◌>>=◌, ◌>>◌}
use volttron_core.Py.Keeps.{Keeps, keeps_rules, Keeps-then, Keeps-if, Keeps-pure}
use volttron_core.Py.Result.{ok, Exception}
use mathlib.Core.Option.{Option}
use volttron_core.Py.Text.{lower}
use volttron_core.Config.Links.{strip_config_name}
use volttron_core.Config.Store.{
  AgentStore, Disk, ConfigStore, Update, deleted, Action, Env, named, dict_item, put_store,
  async_sync, pop_if_empty,
}
use volttron_core.Config.Service.{
  save_store, answered, call_agent, send_update, delete_popped, delete,
}
use volttron_core.Config.Tidy.{popped, pop_config-ok}
use volttron_core.Config.Settled.{IsSettled, named-eq-ok}
use volttron_core.Config.ReadBack.{IsMissing}

module _ (identity config_name : String) where
  abbrev Gone : ConfigStore → Type 0
  Gone = IsMissing identity config_name

  answered-Gone :
      (caught : Exception → Bool) (answer : Option Exception) → Keeps Gone (answered caught answer)
  unfolding answered
  answered-Gone caught none = search keeps_rules
  answered-Gone caught (some e) = search keeps_rules

  send_update-Gone :
      (env : Env) (wanted : Bool) (caught : Exception → Bool) (other : String) (update : Update)
      → Keeps Gone (send_update env wanted caught other update)
  unfolding send_update call_agent modify named
  send_update-Gone env wanted caught other update =
      Keeps-if _ _ _
        (Keeps-then _ _ (record { at = λ s h. h }) (answered-Gone caught (env.answer update)))
        (Keeps-pure tt)

  pop_if_empty-Gone : (disk : Disk) → Keeps Gone (pop_if_empty identity disk)
  unfolding pop_if_empty modify named dict_item
  pop_if_empty-Gone [] = record {
    at = λ s h. ground (arith, lookup-remove identity identity s.stores, beq_refl identity);
  }
  pop_if_empty-Gone (entry ∷ disk) = record { at = λ s h. h }

  saved-Gone :
      (agent : AgentStore) (s : ConfigStore)
      → lookup (lower (strip_config_name config_name)) agent.name_map ≡ none
      → Gone (save_store identity agent s).1
  unfolding save_store put_store async_sync named dict_item ◌>>=◌
  saved-Gone agent s h =
      ground (arith, lookup-insert identity identity agent s.stores, beq_refl identity, h)

  saved_then-Gone :
      (agent : AgentStore) (m : Action (Unit {0}))
      → Keeps Gone m
      → (s : ConfigStore) → lookup (lower (strip_config_name config_name)) agent.name_map ≡ none
      → Gone ((save_store identity agent >> m) s).1
  unfolding save_store put_store async_sync ◌>>=◌
  saved_then-Gone agent m k s h = k.at _ (saved-Gone agent s h)

-- After `delete` of a name that stands for a configuration, no letter case or border of the name
-- finds one, also where the agent does not answer in time and the call raises.
pub delete-IsMissing :
    (env : Env) (identity config_name other : String) (trigger_callback wanted : Bool)
    (s : ConfigStore) (agent : AgentStore) (name : String)
    → IsSettled s
    → named identity config_name s ≡ ok (agent, name)
    → lower (strip_config_name other) ≡ lower (strip_config_name config_name)
    → IsMissing identity other (delete env identity config_name trigger_callback wanted s).1
unfolding delete delete_popped ◌>>=◌
delete-IsMissing env identity config_name other trigger_callback wanted s agent name settled found
      alike =
    let key = lower (strip_config_name config_name) in
    let (there, known) = named-eq-ok identity config_name s agent name found in
    rw (found, pop_config-ok agent key name (settled.tidy identity agent there) known)
      (saved_then-Gone identity other (popped agent key name) _
        (Keeps-then _ _
          (send_update-Gone identity other env wanted _ identity
            (deleted identity (strip_config_name config_name) trigger_callback))
          (pop_if_empty-Gone identity other (remove name agent.store)))
        s (ground (arith, alike, lookup-remove key key agent.name_map, beq_refl key)))
