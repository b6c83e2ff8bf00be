-- ===== src/Config/Refinement.antt =====
-- What the calls of the configuration store do to what clients see.
use volttron_core.Prelude.{
  String, ◌≡◌, ◌∙◌, refl, Bool, true, false, Option, none, some, [], arith, string_eq,
  if◌then◌else◌, Bool-cases, inl, inr, beq_refl,
}
use text.Mathlib.TextEquality.{eq_iff}
use volttron_core.Py.Dict.{lookup, has}
use volttron_core.Py.Exec.{◌>>=◌, ◌>>◌, modify, lift}
use volttron_core.Py.Keeps.{Keeps, keeps_rules, Keeps-then, Keeps-if, Keeps-pure}
use volttron_core.Py.Result.{Result, ok, raised, Exception, value_error, Result-cases}
use volttron_core.Py.Text.{lower}
use volttron_core.Py.Value.{Value, str, list, dict, null, int, bool}
use volttron_core.Config.Links.{strip_config_name, check_for_recursion}
use volttron_core.Config.Recursion.{check_for_recursion_exact}
use volttron_core.Config.Store.{
  AgentStore, DiskEntry, ConfigStore, Update, changed, deleted, deleted_all, initial, Env, named,
  put_store, async_sync, pop_if_empty,
}
use volttron_core.Config.Service.{
  save_store, answered, refuse_recursion, call_agent, send_update, is_any, is_caught, is_structure,
  process_raw_config, add_config_to_store, set_config, store_config, delete_popped, delete,
  delete_found, delete_store, initialize_configs,
}
use volttron_core.Config.Tidy.{
  IsTidy, empty-IsTidy, stored, without_old-ok, popped, pop_config-ok, popped-IsTidy,
}
use volttron_core.Config.Settled.{IsSettled, named-eq-ok}
use volttron_core.Config.Invariant.{
  Call, set_config_call, store_config_call, delete_call, delete_store_call, initialize_configs_call,
  perform,
}
use volttron_core.Config.ReadBack.{current, current-IsTidy}
use volttron_core.Config.View.{
  View, Shows, view, agent_view, agent_view-stored, agent_view-popped, agent_view-empty,
  view-current, view-found, save_store-Shows, pop_if_empty-Shows, agent_store-Shows,
}
use volttron_core.Config.Spec.{key_of, put, drop_agent, text_of, parsed_entry, step, IsAtomic}

answered-Shows :
    (v : View) (caught : Exception → Bool) (answer : Option Exception)
    → Keeps (Shows v) (answered caught answer)
unfolding answered
answered-Shows v caught none = search keeps_rules
answered-Shows v caught (some e) = search keeps_rules

module _ (env : Env) where
  send_update-Shows :
      (v : View) (wanted : Bool) (caught : Exception → Bool) (identity : String) (update : Update)
      → Keeps (Shows v) (send_update env wanted caught identity update)
  unfolding send_update call_agent modify view
  send_update-Shows v wanted caught identity update =
      Keeps-if _ _ _
        (Keeps-then _ _ (record { at = λ s h. h }) (answered-Shows v caught (env.answer update)))
        (Keeps-pure tt)

  add_config_to_store-IsAtomic :
      (identity config_name raw : String) (parsed : Value) (kind : String) (trigger wanted : Bool)
      (s : ConfigStore)
      → IsSettled s
      → IsAtomic
          (view s)
          (put identity (key_of config_name) (some (raw, parsed)) (view s))
          (add_config_to_store env identity config_name raw parsed kind trigger wanted s)
  unfolding add_config_to_store refuse_recursion save_store put_store async_sync ◌>>=◌ put
  add_config_to_store-IsAtomic identity config_name raw parsed kind trigger wanted s settled =
      let name = strip_config_name config_name in
      let agent = current identity s in
      let (s₁, made, shows) = agent_store-Shows identity s in
      let (found, checked, _) = check_for_recursion_exact name parsed agent.configs in
      let t = current-IsTidy identity s settled in
      let (configs, taken) = without_old-ok agent (lower name) t in
      let entry : DiskEntry = record { kind = kind; modified = env.now s₁; contents = raw } in
      let v = put identity (lower name) (some (raw, parsed)) (view s) in
      let saved =
        save_store-Shows identity (stored agent name parsed entry configs) s₁ v λ other key.
          ground (
            arith,
            agent_view-stored agent name key parsed entry configs t taken,
            eq_iff identity other,
            view-current identity key s,
            shows other key,
          ) in
      let action : String = if has (lower name) agent.name_map then "UPDATE" else "NEW" in
      let sent =
        (send_update-Shows v wanted is_any identity
            (changed identity action name parsed trigger)).at
          _ saved in
      elim (Bool-cases found) [
        | inl recursive ↦
            let e : check_for_recursion name parsed agent.configs ≡ some true =
              cc (checked, recursive) in
            rw made (rw e (inr (value_error, refl, shows)))
        | inr fine ↦
            let e : check_for_recursion name parsed agent.configs ≡ some false =
              cc (checked, fine) in
            rw made (rw e (rw taken (inl sent)))
      ]

  set_parsed :
      (identity config_name raw kind : String) (trigger wanted : Bool) (s : ConfigStore)
      (r : Result Value)
      → IsSettled s
      → let key = key_of config_name in
        IsAtomic (view s) (put identity key (parsed_entry raw r (view s identity key)) (view s)) (
          (lift r >>= λ contents.
          add_config_to_store env identity config_name raw contents kind trigger wanted)
            s)
  unfolding ◌>>=◌
  set_parsed identity config_name raw kind trigger wanted s (ok parsed) settled =
      add_config_to_store-IsAtomic identity config_name raw parsed kind trigger wanted s settled
  set_parsed identity config_name raw kind trigger wanted s (raised e) settled =
      inr (e, refl, λ other key. refl)

  store_config-IsAtomic :
      (identity config_name : String) (contents : Value) (trigger wanted : Bool) (s : ConfigStore)
      → IsSettled s
      → IsAtomic
          (view s)
          (put identity (key_of config_name) (some (text_of env contents, contents)) (view s))
          (store_config env identity config_name contents trigger wanted s)
  unfolding store_config text_of is_structure ◌>>=◌
  store_config-IsAtomic identity config_name (str text) trigger wanted s settled =
      add_config_to_store-IsAtomic identity config_name text (str text) "raw" trigger wanted s
        settled
  store_config-IsAtomic identity config_name (list items) trigger wanted s settled =
      add_config_to_store-IsAtomic identity config_name _ (list items) "json" trigger wanted s
        settled
  store_config-IsAtomic identity config_name (dict fields) trigger wanted s settled =
      add_config_to_store-IsAtomic identity config_name _ (dict fields) "json" trigger wanted s
        settled
  store_config-IsAtomic identity config_name null trigger wanted s settled =
      inr (value_error, refl, λ other key. refl)
  store_config-IsAtomic identity config_name (bool b) trigger wanted s settled =
      inr (value_error, refl, λ other key. refl)
  store_config-IsAtomic identity config_name (int n) trigger wanted s settled =
      inr (value_error, refl, λ other key. refl)

  -- What is left to do once a store has been saved, and is dropped if it is empty.
  after_saved :
      (identity : String) (agent : AgentStore) (wanted : Bool) (caught : Exception → Bool)
      (update : Update) (v : View)
      → IsTidy agent
      → ((key : String) → v identity key ≡ agent_view agent key)
      → Keeps
          (Shows v)
          (send_update env wanted caught identity update >> pop_if_empty identity agent.store)
  after_saved identity agent wanted caught update v t same =
      Keeps-then _ _ (send_update-Shows v wanted caught identity update) (
        pop_if_empty-Shows identity agent.store v
          λ e key. same key ∙ agent_view-empty agent key t e)

  delete_named :
      (identity config_name : String) (trigger wanted : Bool) (s : ConfigStore) (agent : AgentStore)
      (name : String)
      → IsSettled s
      → named identity config_name s ≡ ok (agent, name)
      → Shows
          (put identity (key_of config_name) none (view s))
          (delete env identity config_name trigger wanted s).1
  unfolding delete delete_popped save_store send_update put_store async_sync put ◌>>=◌
  delete_named identity config_name trigger wanted s agent name settled found =
      let key = key_of config_name in
      let (there, known) = named-eq-ok identity config_name s agent name found in
      let t = settled.tidy identity agent there in
      let left = popped agent key name in
      let v = put identity key none (view s) in
      let shows : (other : String) → v identity other ≡ agent_view left other = λ other. ground (
        arith,
        beq_refl identity,
        view-found identity other s agent there,
        agent_view-popped agent key name other t known,
      ) in
      rw (found, pop_config-ok agent key name t known)
        ((after_saved identity left wanted is_caught
            (deleted identity (strip_config_name config_name) trigger) v
            (popped-IsTidy agent key name t known) shows).at
          _
          (save_store-Shows identity left s v λ other key'. ground (
            arith,
            eq_iff identity other,
            view-found identity key' s agent there,
            agent_view-popped agent key name key' t known,
          )))

  delete_unnamed :
      (identity config_name : String) (trigger wanted : Bool) (s : ConfigStore) (e : Exception)
      → named identity config_name s ≡ raised e
      → IsAtomic
          (view s)
          (put identity (key_of config_name) none (view s))
          (delete env identity config_name trigger wanted s)
  unfolding delete ◌>>=◌
  delete_unnamed identity config_name trigger wanted s e missing =
      rw missing (inr (e, refl, λ other key. refl))

  delete-IsAtomic :
      (identity config_name : String) (trigger wanted : Bool) (s : ConfigStore)
      → IsSettled s
      → IsAtomic
          (view s)
          (put identity (key_of config_name) none (view s))
          (delete env identity config_name trigger wanted s)
  delete-IsAtomic identity config_name trigger wanted s settled =
      elim (Result-cases (named identity config_name s)) [
        | inl ((agent, name), found) ↦
            inl (delete_named identity config_name trigger wanted s agent name settled found)
        | inr (e, missing) ↦ delete_unnamed identity config_name trigger wanted s e missing
      ]

  abbrev cleared : AgentStore
  cleared = record { configs = []; store = []; name_map = [] }

  delete_found-Shows :
      (identity : String) (s : ConfigStore) (agent : Option AgentStore)
      → lookup identity s.stores ≡ agent
      → Shows (drop_agent identity (view s)) (delete_found env identity agent s).1
  unfolding delete_found drop_agent save_store send_update put_store async_sync ◌>>=◌ view
      agent_view lookup
  delete_found-Shows identity s none missing =
      λ other key. ground (arith, missing, eq_iff identity other)
  delete_found-Shows identity s (some agent) found =
      let v = drop_agent identity (view s) in
      let nothing : (key : String) → v identity key ≡ none =
        λ key. ground (arith, beq_refl identity) in
      (after_saved identity cleared true is_caught (deleted_all identity) v (empty-IsTidy [])
          nothing).at
        _ (save_store-Shows identity cleared s v λ other key. ground (arith, eq_iff identity other))

  initialize_configs-Shows :
      (identity : String) (s : ConfigStore)
      → IsSettled s
      → Shows (view s) (initialize_configs env identity s).1
  unfolding initialize_configs ◌>>=◌
  initialize_configs-Shows identity s settled =
      let agent = current identity s in
      let (s₁, made, shows) = agent_store-Shows identity s in
      rw made (
        (after_saved identity agent true _ (initial identity agent.configs) (view s)
            (current-IsTidy identity s settled) (λ key. view-current identity key s)).at
          s₁ shows)

-- If the stores are in order, each call does to the map from names in lower case to configurations
-- exactly what `step` says, or it raises and the map is as it was; `step` knows only that map. A call
-- that raises after it has taken effect, since the agent does not answer, has taken effect in full.
pub perform-IsAtomic :
    (env : Env) (call : Call) (s : ConfigStore)
    → IsSettled s
    → IsAtomic (view s) (step env call (view s)) (perform env call s)
unfolding perform step set_config delete_store ◌>>=◌
perform-IsAtomic env (set_config_call identity name raw kind trigger wanted) s h =
    set_parsed env identity name raw kind trigger wanted s (process_raw_config env raw kind) h
perform-IsAtomic env (store_config_call identity name contents trigger wanted) s h =
    store_config-IsAtomic env identity name contents trigger wanted s h
perform-IsAtomic env (delete_call identity name trigger wanted) s h =
    delete-IsAtomic env identity name trigger wanted s h
perform-IsAtomic env (delete_store_call identity) s h =
    inl (delete_found-Shows env identity s (lookup identity s.stores) refl)
perform-IsAtomic env (initialize_configs_call identity) s h =
    inl (initialize_configs-Shows env identity s h)
