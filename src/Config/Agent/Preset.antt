-- ===== src/Config/Agent/Preset.antt =====
-- The default configurations of an agent: `set_default` and `delete_default`.
use volttron_core.Prelude.{String, Bool, true, false, not, if◌then◌else◌, string_eq}
use volttron_core.Py.Dict.{has, insert}
use volttron_core.Py.Exec.{pure, lift, gets, modify, guard, ◌>>=◌, ◌>>◌}
use volttron_core.Py.Result.{value_error, runtime_error}
use volttron_core.Py.Text.{lower}
use volttron_core.Py.Value.{Value, str, list, dict}
use volttron_core.Config.Store.{dict_item, dict_pop}
use volttron_core.Config.Agent.{Step, update_refs}

unfoldable pub is_contents : Value → Bool
is_contents (str text) = true
is_contents (list items) = true
is_contents (dict fields) = true
is_contents _ = false

unfoldable pub store_default : String → Value → Step (Unit {0})
store_default config_name contents = do
  let key = lower config_name
  modify (λ s. record s {
    default_store = insert key contents s.default_store;
    default_name_map = insert key config_name s.default_name_map;
  })
  there ← gets (λ s. has key s.store)
  (if there then pure tt else update_refs key contents)

unfoldable pub set_default : String → Value → Step (Unit {0})
set_default config_name contents = do
  ready ← gets (λ s. s.initialized)
  guard (not ready) runtime_error
  guard (is_contents contents) value_error
  store_default config_name contents

unfoldable pub drop_default : String → Step (Unit {0})
drop_default key = do
  defaults ← gets (λ s. s.default_store)
  defaults' ← lift (dict_pop key defaults)
  modify (λ s. record s { default_store = defaults' })
  names ← gets (λ s. s.default_name_map)
  names' ← lift (dict_pop key names)
  modify (λ s. record s { default_name_map = names' })
  there ← gets (λ s. has key s.store)
  (if there then pure tt else (do
    store ← gets (λ s. s.store)
    contents ← lift (dict_item key store)
    update_refs key contents))

unfoldable pub delete_default : String → Step (Unit {0})
delete_default config_name = do
  ready ← gets (λ s. s.initialized)
  guard (not ready) runtime_error
  drop_default (lower config_name)
