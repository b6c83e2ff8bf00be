-- ===== src/Config/Agent/Local.antt =====
-- What `_initial_update` and `_update_config` do to the fields of `ConfigStore`.
use volttron_core.Prelude.{
  String, Bool, true, false, none, some, List, [], ◌∷◌, ◌||◌, union, if◌then◌else◌, string_eq, ◌==◌,
}
use volttron_core.Py.Dict.{Dict, lookup, get_or, has, insert, remove}
use volttron_core.Py.Exec.{pure, lift, gets, modify, ◌>>=◌, ◌>>◌}
use volttron_core.Py.Text.{lower}
use volttron_core.Py.Value.{Value}
use volttron_core.Config.Store.{dict_pop}
use volttron_core.Config.Agent.{AgentConfig, Step, add_refs, delete_refs, update_refs}
use volttron_core.Config.Agent.Gather.{gather_affected}

-- {key.lower(): value for (key, value) in configs.items()}
unfoldable pub lower_keys {ℓ} : {V : Type ℓ} → Dict V → Dict V → Dict V
lower_keys [] lowered = lowered
lower_keys ((key, v) ∷ configs) lowered = lower_keys configs (insert (lower key) v lowered)

unfoldable pub name_keys {ℓ} : {V : Type ℓ} → Dict V → Dict String → Dict String
name_keys [] names = names
name_keys ((key, v) ∷ configs) names = name_keys configs (insert (lower key) key names)

-- The loops of `_initial_update`.
unfoldable pub add_each : Dict Value → Step (Unit {0})
add_each [] = pure tt
add_each ((name, contents) ∷ configs) = do add_refs name contents; add_each configs

unfoldable pub add_defaults : Dict Value → Step (Unit {0})
add_defaults [] = pure tt
add_defaults ((name, contents) ∷ configs) = do
  there ← gets (λ s. has name s.store)
  (if there then pure tt else add_refs name contents)
  add_defaults configs

unfoldable pub initial_update : Dict Value → Bool → Step (Unit {0})
initial_update configs reset_name_map = do
  modify (λ s. record s {
    initialized = true;
    store = lower_keys configs [];
    name_map = if reset_name_map then name_keys configs [] else s.name_map;
  })
  store ← gets (λ s. s.store)
  add_each store
  defaults ← gets (λ s. s.default_store)
  add_defaults defaults

-- {name: action for name in configs}, on what is there
unfoldable pub mark {ℓ} : {V : Type ℓ} → String → Dict V → Dict String → Dict String
mark action [] affected = affected
mark action ((name, v) ∷ configs) affected = mark action configs (insert name action affected)

-- The callbacks for a configuration and an action, over the patterns.
unfoldable pub callbacks_for :
    (String → String → Bool) → String → String → Dict (Dict (List String)) → List String
callbacks_for matches name action [] = []
callbacks_for matches name action ((pattern, actions) ∷ subscriptions) =
    let rest = callbacks_for matches name action subscriptions in
    if matches name pattern then union (get_or action actions []) rest else rest

-- all_map: the names of the defaults, and over them those of the configurations
unfoldable pub dict_update {ℓ} : {V : Type ℓ} → Dict V → Dict V → Dict V
dict_update d [] = d
dict_update d ((key, v) ∷ other) = dict_update (insert key v d) other

unfoldable pub all_names : AgentConfig → Dict String
all_names s = dict_update s.default_name_map s.name_map

-- `_update_config` for "DELETE", up to the callbacks: the configurations that are affected
unfoldable pub delete_local : String → Step (Dict String)
delete_local key = do
  there ← gets (λ s. has key s.store)
  (if there
      then (do
        modify (λ s. record s { store = remove key s.store })
        default ← gets (λ s. lookup key s.default_store)
        elim default [
          | none ↦ (do
            affected ← gather_affected key ((key, "DELETE") ∷ [])
            delete_refs key
            pure affected)
          | some contents ↦ (do
            affected ← gather_affected key ((key, "UPDATE") ∷ [])
            update_refs key contents
            pure affected)
        ])
      else pure [])

-- for "DELETE_ALL"
unfoldable pub delete_all_local : Step (Dict String)
delete_all_local = do
  affected ← gets (λ s. mark "UPDATE" s.default_store (mark "DELETE" s.store []))
  modify (λ s. record s { ref_map = []; reverse_ref_map = [] })
  initial_update [] false
  pure affected

-- for "NEW" and "UPDATE"
unfoldable pub set_local : String → String → Value → Step (Dict String)
set_local action config_name contents = do
  let key = lower config_name
  modify (λ s. record s {
    store = insert key contents s.store;
    name_map = insert key config_name s.name_map;
  })
  default ← gets (λ s. has key s.default_store)
  update_refs key contents
  gather_affected key ((key, if default then "UPDATE" else action) ∷ [])

unfoldable pub update_store : String → String → Value → Step (Dict String)
update_store action config_name contents =
    if action == "DELETE"
    then delete_local (lower config_name)
    else if action == "DELETE_ALL"
    then delete_all_local
    else if action == "NEW" || action == "UPDATE"
    then set_local action config_name contents
    else pure []

unfoldable pub drop_name : String → Step (Unit {0})
drop_name key = do
  names ← gets (λ s. s.name_map)
  names' ← lift (dict_pop key names)
  modify (λ s. record s { name_map = names' })

unfoldable pub clear_names : Step (Unit {0})
clear_names = modify λ s. record s { name_map = [] }

-- the end of `_update_config`
unfoldable pub forget_names : String → String → Step (Unit {0})
forget_names action key =
    if action == "DELETE"
    then drop_name key
    else if action == "DELETE_ALL"
    then clear_names
    else pure tt
