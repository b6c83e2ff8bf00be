-- ===== src/Config/Service.antt =====
-- `ConfigStoreService`: the calls that change the stores.
use volttron_core.Prelude.{
  String, Bool, true, false, not, Option, none, some, [], ◌∷◌, ◌++◌, ◌&&◌, if◌then◌else◌, string_eq,
  ◌==◌,
}
use volttron_core.Py.Dict.{Dict, lookup, has, insert, remove}
use volttron_core.Py.Exec.{pure, raise, lift, gets, modify, guard, ◌>>=◌, ◌>>◌}
use volttron_core.Py.Result.{
  Result, ok, raised, Exception, value_error, unreachable, remote_error, keyboard_interrupt,
  method_not_found, vip_error, error,
}
use volttron_core.Py.Result
use volttron_core.Py.Text.{lower}
use volttron_core.Py.Value.{Value, str, list, dict}
use volttron_core.Config.Links.{strip_config_name, check_for_recursion}
use volttron_core.Config.Store.{
  DiskEntry, AgentStore, Update, changed, deleted, deleted_all, initial, Action, Env, dict_pop,
  named, put_store, async_sync, pop_if_empty, agent_store,
}

-- `except Unreachable`, `RemoteError`, `MethodNotFound`
unfoldable pub is_caught : Exception → Bool
is_caught unreachable = true
is_caught remote_error = true
is_caught method_not_found = true
is_caught e = false

-- and `except VIPError`
unfoldable pub is_caught_initially : Exception → Bool
unfolding is_caught
is_caught_initially vip_error = true
is_caught_initially e = is_caught e

-- and `except gevent.timeout.Timeout`, `except Exception`
unfoldable pub is_any : Exception → Bool
is_any keyboard_interrupt = false
is_any e = true

unfoldable pub is_structure : Value → Result Value
is_structure (list items) = ok (list items)
is_structure (dict fields) = ok (dict fields)
is_structure _ = raised value_error

-- `try: self.vip.rpc.call(...).get(...)` with the exceptions that are caught
unfoldable pub answered : (Exception → Bool) → Option Exception → Action (Unit {0})
answered caught none = pure tt
answered caught (some e) = if caught e then pure tt else raise e

-- `if check_for_recursion(...): raise ValueError(...)`
unfoldable pub refuse_recursion : Option Bool → Action (Unit {0})
refuse_recursion none = raise (error "out of fuel")
refuse_recursion (some found) = guard (not found) value_error

-- `agent_configs` without the configuration that the name stood for before
unfoldable pub without_old : Option String → Dict Value → Result (Dict Value)
without_old none configs = ok configs
without_old (some old) configs = dict_pop old configs

-- the new contents, and the file after them
unfoldable pub save_store : String → AgentStore → Action (Unit {0})
save_store identity agent = do put_store identity agent; async_sync identity agent.store

-- The `pop`s of `delete`, with what is left where one of them raises.
unfoldable pub pop_config : String → String → AgentStore → Result (Unit {0}) × AgentStore
pop_config key name agent = elim (dict_pop name agent.configs) [
  | raised e ↦ (raised e, agent)
  | ok configs ↦ elim (dict_pop name agent.store) [
    | raised e ↦ (raised e, record agent { configs = configs })
    | ok disk ↦
        (ok tt, record { configs = configs; store = disk; name_map = remove key agent.name_map })
  ]
]

module _ (env : Env) where
  unfoldable pub process_raw_config : String → String → Result Value
  process_raw_config config_string config_type =
      if config_type == "raw"
      then ok (str config_string)
      else if config_type == "json"
      then (Result.◌>>=◌ (env.parse_json_config config_string) is_structure)
      else if config_type == "csv"
      then env.read_csv config_string
      else raised value_error

  unfoldable pub call_agent : (Exception → Bool) → Update → Action (Unit {0})
  call_agent caught update = do
    modify (λ s. record s { updates = s.updates ++ update ∷ [] })
    answered caught (env.answer update)

  -- the call, if the agent is connected and an update is asked for
  unfoldable pub send_update : Bool → (Exception → Bool) → String → Update → Action (Unit {0})
  send_update wanted caught identity update =
      if wanted && env.is_peer identity then call_agent caught update else pure tt

  -- `_add_config_to_store`
  unfoldable pub add_config_to_store :
      String → String → String → Value → String → Bool → Bool → Action (Unit {0})
  add_config_to_store identity config_name raw parsed config_type trigger_callback wanted = do
    agent ← agent_store identity
    let name = strip_config_name config_name
    let key = lower name
    let action : String = if has key agent.name_map then "UPDATE" else "NEW"
    refuse_recursion (check_for_recursion name parsed agent.configs)
    configs ← lift (without_old (lookup key agent.name_map) agent.configs)
    modified ← gets env.now
    let entry : DiskEntry = record { kind = config_type; modified = modified; contents = raw }
    save_store identity (record {
      configs = insert name parsed configs;
      store = insert name entry agent.store;
      name_map = insert key name agent.name_map;
    })
    send_update wanted is_any identity (changed identity action name parsed trigger_callback)

  -- `set_config`, `manage_store`
  unfoldable pub set_config : String → String → String → String → Bool → Bool → Action (Unit {0})
  set_config identity config_name raw_contents config_type trigger_callback wanted = do
    contents ← lift (process_raw_config raw_contents config_type)
    add_config_to_store identity config_name raw_contents contents config_type trigger_callback
        wanted

  -- `store_config`
  unfoldable pub store_config : String → String → Value → Bool → Bool → Action (Unit {0})
  store_config identity config_name (str text) trigger_callback wanted =
      add_config_to_store identity config_name text (str text) "raw" trigger_callback wanted
  store_config identity config_name contents trigger_callback wanted = do
    parsed ← lift (is_structure contents)
    add_config_to_store identity config_name (env.dumps parsed) parsed "json" trigger_callback
        wanted

  unfoldable pub delete_popped :
      String → String → Bool → Bool → Result (Unit {0}) × AgentStore → Action (Unit {0})
  delete_popped identity name trigger_callback wanted (raised e, agent) = do
    put_store identity agent
    raise e
  delete_popped identity name trigger_callback wanted (ok _, agent) = do
    save_store identity agent
    send_update wanted is_caught identity (deleted identity name trigger_callback)
    pop_if_empty identity agent.store

  -- `delete`, `delete_config`, `manage_delete_config`
  unfoldable pub delete : String → String → Bool → Bool → Action (Unit {0})
  delete identity config_name trigger_callback wanted = do
    found ← (λ s. (named identity config_name s, s))
    let name = strip_config_name config_name
    delete_popped identity name trigger_callback wanted (pop_config (lower name) found.1 found.0)

  unfoldable pub delete_found : String → Option AgentStore → Action (Unit {0})
  delete_found identity none = pure tt
  delete_found identity (some agent) = do
    save_store identity (record { configs = []; store = []; name_map = [] })
    send_update true is_caught identity (deleted_all identity)
    pop_if_empty identity []

  -- `delete_store`, `manage_delete_store`
  unfoldable pub delete_store : String → Action (Unit {0})
  delete_store identity = do
    agent ← gets (λ s. lookup identity s.stores)
    delete_found identity agent

  -- `initialize_configs`
  unfoldable pub initialize_configs : String → Action (Unit {0})
  initialize_configs identity = do
    agent ← agent_store identity
    send_update true is_caught_initially identity (initial identity agent.configs)
    pop_if_empty identity agent.store
