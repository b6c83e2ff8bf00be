-- ===== src/Config/Invariant.antt =====
-- The invariant of the configuration store under every call.
use volttron_core.Prelude.{String, ◌≡◌, Bool, true, Option, none, some, [], string_eq}
use volttron_core.Py.Dict.{lookup}
use volttron_core.Py.Exec.{modify}
use volttron_core.Py.Keeps.{
  Keeps, keeps_rules, Keeps-bind, Keeps-then, Keeps-if, Keeps-pure, Keeps-lift, Keeps-gets,
  Gives-bind, Gives-lift,
}
use volttron_core.Py.Result.{ok, Exception}
use volttron_core.Py.Text.{lower}
use volttron_core.Py.Value.{Value, str}
use volttron_core.Config.Links.{strip_config_name}
use volttron_core.Config.Store.{AgentStore, ConfigStore, Update, Action, Env, named}
use volttron_core.Config.Service.{
  call_agent, send_update, add_config_to_store, set_config, store_config, delete_popped, delete,
  delete_found, delete_store, initialize_configs,
}
use volttron_core.Config.Tidy.{IsTidy, empty-IsTidy, stored-IsTidy, pop_config-ok, popped-IsTidy}
use volttron_core.Config.Settled.{
  pop_if_empty-IsSettled, agent_store-IsTidy, answered-IsSettled, refuse_recursion-IsSettled,
  IsSettled, save_store-IsSettled, named-eq-ok,
}

module _ (env : Env) where
  call_agent-IsSettled :
      (caught : Exception → Bool) (update : Update) → Keeps IsSettled (call_agent env caught update)
  unfolding call_agent modify
  call_agent-IsSettled caught update =
      Keeps-then _ _ (record { at = λ s h. record { tidy = h.tidy; saved = h.saved } })
        (answered-IsSettled caught _)

  send_update-IsSettled :
      (wanted : Bool) (caught : Exception → Bool) (identity : String) (update : Update)
      → Keeps IsSettled (send_update env wanted caught identity update)
  unfolding send_update
  send_update-IsSettled wanted caught identity update =
      Keeps-if _ _ _ (call_agent-IsSettled caught update) (Keeps-pure tt)

  add_config_to_store-IsSettled :
      (identity config_name raw : String) (parsed : Value) (config_type : String)
      (trigger_callback wanted : Bool)
      → Keeps IsSettled (
          add_config_to_store env identity config_name raw parsed config_type trigger_callback
            wanted)
  unfolding add_config_to_store
  add_config_to_store-IsSettled identity config_name raw parsed config_type trigger_callback
        wanted =
      Gives-bind _ _ (agent_store-IsTidy identity) λ agent t.
        Keeps-then _ _ (refuse_recursion-IsSettled _) (
          Gives-bind _ _ (Gives-lift _ (λ configs e. e)) λ configs e.
            Keeps-bind _ _ (Keeps-gets env.now) λ modified.
              Keeps-then _ _
                (save_store-IsSettled identity _ (stored-IsTidy agent _ parsed _ configs t e))
                (send_update-IsSettled wanted _ identity _))

  set_config-IsSettled :
      (identity config_name raw config_type : String) (trigger_callback wanted : Bool)
      → Keeps IsSettled
          (set_config env identity config_name raw config_type trigger_callback wanted)
  unfolding set_config
  set_config-IsSettled identity config_name raw config_type trigger_callback wanted =
      Keeps-bind _ _ (Keeps-lift _) λ contents.
        add_config_to_store-IsSettled identity config_name raw contents config_type trigger_callback
          wanted

  store_config-IsSettled :
      (identity config_name : String) (contents : Value) (trigger_callback wanted : Bool)
      → Keeps IsSettled (store_config env identity config_name contents trigger_callback wanted)
  unfolding store_config
  store_config-IsSettled identity config_name (str text) trigger_callback wanted =
      add_config_to_store-IsSettled identity config_name text (str text) "raw" trigger_callback
        wanted
  store_config-IsSettled identity config_name v trigger_callback wanted =
      Keeps-bind _ _ (Keeps-lift _) λ parsed.
        add_config_to_store-IsSettled identity config_name (env.dumps parsed) parsed "json"
          trigger_callback wanted

  abbrev Named : String → AgentStore × String → Type 0
  Named key (agent, name) = IsTidy agent × (lookup key agent.name_map ≡ some name)

  named-Named :
      (identity config_name : String) (s : ConfigStore) (found : AgentStore × String)
      → IsSettled s
      → named identity config_name s ≡ ok found
      → Named (lower (strip_config_name config_name)) found
  named-Named identity config_name s (agent, name) h e =
      let (there, known) = named-eq-ok identity config_name s agent name e in
      (h.tidy identity agent there, known)

  delete-IsSettled :
      (identity config_name : String) (trigger_callback wanted : Bool)
      → Keeps IsSettled (delete env identity config_name trigger_callback wanted)
  unfolding delete delete_popped
  delete-IsSettled identity config_name trigger_callback wanted =
      let key = lower (strip_config_name config_name) in
      Gives-bind {Q = Named key} _ _
        (record {
          keeps = record { at = λ s h. h };
          gives = λ s h found e. named-Named identity config_name s found h e;
        })
        λ found t. rw (pop_config-ok found.0 key found.1 t.0 t.1) (
          Keeps-then _ _
            (save_store-IsSettled identity _ (popped-IsTidy found.0 key found.1 t.0 t.1))
            (Keeps-then _ _ (send_update-IsSettled wanted _ identity _)
              (pop_if_empty-IsSettled identity _)))

  delete_found-IsSettled :
      (identity : String) (agent : Option AgentStore)
      → Keeps IsSettled (delete_found env identity agent)
  unfolding delete_found
  delete_found-IsSettled identity none = search keeps_rules
  delete_found-IsSettled identity (some agent) =
      Keeps-then _ _ (save_store-IsSettled identity _ (empty-IsTidy [])) (
        Keeps-then _ _ (send_update-IsSettled true _ identity _)
          (pop_if_empty-IsSettled identity []))

  delete_store-IsSettled : (identity : String) → Keeps IsSettled (delete_store env identity)
  unfolding delete_store
  delete_store-IsSettled identity = Keeps-bind _ _ (Keeps-gets _) (delete_found-IsSettled identity)

  initialize_configs-IsSettled :
      (identity : String) → Keeps IsSettled (initialize_configs env identity)
  unfolding initialize_configs
  initialize_configs-IsSettled identity = Gives-bind _ _ (agent_store-IsTidy identity) λ agent t.
      Keeps-then _ _ (send_update-IsSettled true _ identity _)
        (pop_if_empty-IsSettled identity agent.store)

-- The calls that change the store.
pub data Call : Type 0 where
  set_config_call : String → String → String → String → Bool → Bool → Call
  store_config_call : String → String → Value → Bool → Bool → Call
  delete_call : String → String → Bool → Bool → Call
  delete_store_call : String → Call
  initialize_configs_call : String → Call

unfoldable pub perform : Env → Call → Action (Unit {0})
perform env (set_config_call identity name raw kind trigger wanted) =
    set_config env identity name raw kind trigger wanted
perform env (store_config_call identity name contents trigger wanted) =
    store_config env identity name contents trigger wanted
perform env (delete_call identity name trigger wanted) = delete env identity name trigger wanted
perform env (delete_store_call identity) = delete_store env identity
perform env (initialize_configs_call identity) = initialize_configs env identity

-- Each call keeps every agent's store in order, also when it raises: a name in lower case stands
-- for a configuration that is there, every configuration has its name in lower case, and the copy
-- last handed over to the worker thread for the agent's file holds what the store holds. A store
-- that is made anew is taken to find that copy in the file.
pub perform-IsSettled :
    (env : Env) (call : Call) (s : ConfigStore) → IsSettled s → IsSettled (perform env call s).1
unfolding perform
perform-IsSettled env (set_config_call identity name raw kind trigger wanted) s h =
    (set_config-IsSettled env identity name raw kind trigger wanted).at s h
perform-IsSettled env (store_config_call identity name contents trigger wanted) s h =
    (store_config-IsSettled env identity name contents trigger wanted).at s h
perform-IsSettled env (delete_call identity name trigger wanted) s h =
    (delete-IsSettled env identity name trigger wanted).at s h
perform-IsSettled env (delete_store_call identity) s h =
    (delete_store-IsSettled env identity).at s h
perform-IsSettled env (initialize_configs_call identity) s h =
    (initialize_configs-IsSettled env identity).at s h
