-- ===== src/Config/Agent/Calls.antt =====
-- The calls of `ConfigStore`, the agents' side of the configuration store.
use volttron_core.Prelude.{
  String, Bool, true, false, Option, none, some, List, [], ◌∷◌, ◌++◌, ◌&&◌, add, union, is_empty,
  if◌then◌else◌, string_eq, ◌==◌, map,
}
use volttron_core.Py.Dict.{Dict, lookup, update, keys}
use volttron_core.Py.Exec.{pure, raise, lift, gets, modify, guard, ◌>>=◌, ◌>>◌}
use volttron_core.Py.Result.{
  Result, ok, raised, Exception, is_exception, key_error, value_error, runtime_error, unreachable,
  vip_error,
}
use volttron_core.Py.Result
use volttron_core.Py.Text.{lower}
use volttron_core.Py.Value.{Value, null}
use volttron_core.Config.Links.{minus}
use volttron_core.Config.Store.{sorted, dict_item}
use volttron_core.Config.Agent.{AgentConfig, Notice, Gathered, Step, atom}
use volttron_core.Config.Agent.Gather.{gather_config}
use volttron_core.Config.Agent.Local.{
  initial_update, mark, callbacks_for, all_names, update_store, forget_names,
}

-- What is not the subsystem's own: `fnmatch.fnmatchcase`, the callbacks, `str.upper`, and the call
-- of "initialize_configs" on the platform, which may push configurations to the agent first.
pub record AgentEnv : Type 0 where
  pub matches : String → String → Bool
  pub failure : Notice → Option Exception
  pub upper : String → String
  pub pushed : AgentConfig → Option (Dict Value)
  pub answer : AgentConfig → Option Exception

-- [names[x] for x in stored]
unfoldable pub items_at : Dict String → List String → Result (List String)
items_at names [] = ok []
items_at names (key ∷ stored) =
    Result.◌>>=◌ (dict_item key names)
      λ name. Result.◌>>=◌ (items_at names stored) λ found. ok (name ∷ found)

-- `except errors.Unreachable`, `except errors.VIPError`: whether neither was raised
unfoldable pub unless_refused : Result (Unit {0}) × AgentConfig → Result Bool × AgentConfig
unless_refused (ok _, s) = (ok true, s)
unless_refused (raised unreachable, s) = (ok false, s)
unless_refused (raised vip_error, s) = (ok false, s)
unless_refused (raised e, s) = (raised e, s)

unfoldable pub answered_by : Option Exception → Step (Unit {0})
answered_by none = pure tt
answered_by (some e) = raise e

-- The loop of `subscribe`.
unfoldable pub subscribe_each :
    String → List String → String → Dict (Dict (List String)) → Dict (Dict (List String))
subscribe_each callback [] pattern subscriptions = subscriptions
subscribe_each callback (action ∷ actions) pattern subscriptions =
    subscribe_each callback actions pattern
      (update pattern [] (update action [] (add callback)) subscriptions)

module _ (env : AgentEnv) where
  -- What the callback raises, once it has been called.
  unfoldable pub failed : Option Exception → Step (Unit {0})
  failed none = pure tt
  failed (some e) = if is_exception e then pure tt else raise e

  -- The `try` of the loop over the callbacks.
  unfoldable pub call_back : String → String → Result String → Result Gathered → Step (Unit {0})
  call_back callback action (ok name) (ok contents) = do
    let notice : Notice = record {
      callback = callback;
      config_name = name;
      action = action;
      contents = contents;
    }
    modify (λ s. record s { notices = s.notices ++ notice ∷ [] })
    failed (env.failure notice)
  call_back callback action name (raised e) = failed (some e)
  call_back callback action (raised e) contents = failed (some e)

  unfoldable pub call_each : String → String → Dict String → List String → Step (Unit {0})
  call_each name action names [] = pure tt
  call_each name action names (callback ∷ callbacks) = do
    contents ← gets (λ s. if action == "DELETE" then ok (atom null, []) else gather_config name s)
    call_back callback action (dict_item name names) contents
    call_each name action names callbacks

  unfoldable pub process_callbacks_one_config : String → String → Dict String → Step (Unit {0})
  process_callbacks_one_config name action names = do
    callbacks ← gets (λ s. callbacks_for env.matches name action s.subscriptions)
    call_each name action names callbacks

  unfoldable pub process_each : Dict String → Dict String → Step (Unit {0})
  process_each [] names = pure tt
  process_each ((name, action) ∷ affected) names = do
    (if name == "config" then pure tt else process_callbacks_one_config name action names)
    process_each affected names

  -- "config" comes first.
  unfoldable pub process_main : Option String → Dict String → Step (Unit {0})
  process_main none names = pure tt
  process_main (some action) names = process_callbacks_one_config "config" action names

  unfoldable pub process_callbacks : Dict String → Step (Unit {0})
  process_callbacks affected = do
    names ← gets all_names
    process_main (lookup "config" affected) names
    process_each affected names

  -- `_update_config`, once the agent has its configurations
  unfoldable pub update_initialized : String → String → Value → Bool → Step (Unit {0})
  update_initialized action config_name contents trigger_callback = do
    affected ← update_store action config_name contents
    called ← gets (λ s. s.initial_callbacks_called)
    (if trigger_callback && called then process_callbacks affected else pure tt)
    forget_names action (lower config_name)

  unfoldable pub update_config : String → String → Value → Bool → Step (Unit {0})
  update_config action config_name contents trigger_callback = do
    ready ← gets (λ s. s.initialized)
    (if ready then update_initialized action config_name contents trigger_callback else pure tt)

  unfoldable pub accept : Option (Dict Value) → Step (Unit {0})
  accept none = pure tt
  accept (some configs) = initial_update configs true

  -- The call of "initialize_configs" on the platform.
  unfoldable pub initialize : Step (Unit {0})
  initialize = do
    answer ← gets env.answer
    configs ← gets env.pushed
    accept configs
    answered_by answer

  unfoldable pub initialize_if_needed : Step Bool
  initialize_if_needed = do
    ready ← gets (λ s. s.initialized)
    (if ready then pure true else λ s. unless_refused (initialize s))

  unfoldable pub announce : Step (Unit {0})
  announce = do
    affected ← gets (λ s. mark "NEW" s.default_store (mark "NEW" s.store []))
    process_callbacks affected
    modify (λ s. record s { initial_callbacks_called = true })

  -- `_onconfig`
  unfoldable pub onconfig : Step (Unit {0})
  onconfig = do ready ← initialize_if_needed; (if ready then announce else pure tt)

  unfoldable pub list_names : Step (List String)
  list_names = do
    initialize_if_needed
    names ← gets all_names
    stored ← gets (λ s. union (keys s.store) (keys s.default_store))
    found ← lift (items_at names stored)
    pure (sorted found)

  unfoldable pub get : String → Step Gathered
  get config_name = do
    initialize_if_needed
    contents ← gets (gather_config (lower config_name))
    lift contents

  unfoldable pub subscribe : String → List String → String → Step (Unit {0})
  subscribe callback actions pattern = do
    let wanted = union [] (map env.upper actions)
    guard (is_empty (minus wanted ("NEW" ∷ "UPDATE" ∷ "DELETE" ∷ []))) value_error
    modify (λ s. record s {
      subscriptions = subscribe_each callback wanted (lower pattern) s.subscriptions;
    })

unfoldable pub unsubscribe_all : Step (Unit {0})
unsubscribe_all = modify λ s. record s { subscriptions = [] }
