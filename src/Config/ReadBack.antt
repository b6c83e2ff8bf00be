-- ===== src/Config/ReadBack.antt =====
-- `set_config` and `get_config`, one after the other.
use text.Mathlib.TextPositions.{eq_refl}
use volttron_core.Prelude.{
  String, ◌≡◌, refl, Bool, true, false, Option, none, some, List, [], ◌∷◌, ◌++◌, ◌&&◌, arith, ◌==◌,
  string_eq, if◌then◌else◌, Bool-cases, Option-cases, inl, inr, beq_refl,
}
use volttron_core.Py.Dict.{Dict, lookup, has, insert, or_else, lookup-insert, has-insert}
use volttron_core.Py.Exec.{pure, ◌>>=◌}
use volttron_core.Py.Result.{ok, raised, key_error, Exception}
use volttron_core.Py.Text.{lower}
use volttron_core.Py.Value.{Value, str}
use volttron_core.Config.Links.{strip_config_name, check_for_recursion}
use volttron_core.Config.Store.{
  AgentStore, DiskEntry, ConfigStore, Update, changed, Env, named, dict_item, get_config, put_store,
  async_sync, agent_store, new_store,
}
use volttron_core.Config.Service.{
  save_store, answered, refuse_recursion, call_agent, send_update, is_any, process_raw_config,
  add_config_to_store, set_config,
}
use volttron_core.Config.Tidy.{IsTidy, empty-IsTidy, stored, without_old-ok}
use volttron_core.Config.Settled.{IsSettled, agent_store_found, agent_store_missing, made}

-- The store of an agent as a call finds it.
abbrev pub current : String → ConfigStore → AgentStore
current identity s = or_else (lookup identity s.stores) (new_store identity s)

pub current-IsTidy :
    (identity : String) (s : ConfigStore) → IsSettled s → IsTidy (current identity s)
unfolding new_store
current-IsTidy identity s h = elim (Option-cases (lookup identity s.stores)) [
  | inl missing ↦ rw missing (empty-IsTidy _)
  | inr (agent, found) ↦ rw found (h.tidy identity agent found)
]

agent_store_ok :
    (identity : String) (s : ConfigStore)
    → (s' : ConfigStore) × (agent_store identity s ≡ (ok (current identity s), s'))
agent_store_ok identity s = elim (Option-cases (lookup identity s.stores)) [
  | inl missing ↦ (made identity s, rw missing (agent_store_missing identity s missing))
  | inr (agent, found) ↦ (s, rw found (agent_store_found identity agent s found))
]

answered_any :
    (answer : Option Exception) (s : ConfigStore)
    → ((e : Exception) → answer ≡ some e → is_any e ≡ true)
    → answered is_any answer s ≡ (ok tt, s)
unfolding answered pure
answered_any none s caught = refl
answered_any (some e) s caught = rw (caught e refl) refl

-- What calls of agents raise is caught.
abbrev pub IsCaught : Env → Type 0
IsCaught env = (update : Update) (e : Exception) → env.answer update ≡ some e → is_any e ≡ true

-- No failure of an agent makes an update fail.
send_update_any :
    (env : Env) (caught : IsCaught env) (wanted : Bool) (identity : String) (update : Update)
    (s : ConfigStore)
    → (updates : List Update) × (send_update env wanted is_any identity update s
        ≡ (ok tt, record s { updates = updates }))
unfolding send_update call_agent pure ◌>>=◌
send_update_any env caught wanted identity update s =
    elim (Bool-cases (wanted && env.is_peer identity)) [
      | inl sent ↦
          (s.updates ++ update ∷ [], rw sent (answered_any (env.answer update) _ (caught update)))
      | inr unsent ↦ (s.updates, rw unsent refl)
    ]

dict_item_found {ℓ} :
    {V : Type ℓ} (key : String) (v : V) (d : Dict V)
    → lookup key d ≡ some v
    → dict_item key d ≡ ok v
unfolding dict_item
dict_item_found key v d e = rw (e, dict_item) refl

dict_item-insert {ℓ} :
    {V : Type ℓ} (key : String) (v : V) (d : Dict V) → dict_item key (insert key v d) ≡ ok v
dict_item-insert key v d =
    dict_item_found key v (insert key v d) (rw (lookup-insert key key v d, eq_refl key) refl)

get_config-stored :
    (identity other name : String) (parsed : Value) (entry : DiskEntry) (configs : Dict Value)
    (agent : AgentStore) (s : ConfigStore)
    → lookup identity s.stores ≡ some (stored agent name parsed entry configs)
    → lower (strip_config_name other) ≡ lower name
    → (get_config identity other true s ≡ ok (str entry.contents))
      × (get_config identity other false s ≡ ok parsed)
unfolding get_config named
get_config-stored identity other name parsed entry configs agent s there alike =
    rw
      (
        dict_item_found identity (stored agent name parsed entry configs) s.stores there,
        alike,
        dict_item-insert (lower name) name agent.name_map,
        dict_item-insert name entry agent.store,
        dict_item-insert name parsed configs,
      )
      (refl, refl)

module _ (env : Env) (identity config_name raw config_type : String) (parsed : Value)
    (trigger_callback wanted : Bool) (s : ConfigStore) (settled : IsSettled s)
    (caught : IsCaught env) where
  abbrev name : String
  name = strip_config_name config_name

  add_config_to_store_ok :
      check_for_recursion name parsed (current identity s).configs ≡ some false
      → (configs : Dict Value) × (entry : DiskEntry) × (s' : ConfigStore) × (add_config_to_store env
            identity config_name raw parsed config_type trigger_callback wanted s
          ≡ (ok tt, s'))
        × (lookup identity s'.stores ≡ some (stored (current identity s) name parsed entry configs))
        × (entry.contents ≡ raw)
  unfolding add_config_to_store refuse_recursion save_store put_store async_sync ◌>>=◌
  add_config_to_store_ok passes =
      let agent = current identity s in
      let (s₁, made') = agent_store_ok identity s in
      let (configs, taken) =
        without_old-ok agent (lower name) (current-IsTidy identity s settled) in
      let entry : DiskEntry = record {
        kind = config_type;
        modified = env.now s₁;
        contents = raw;
      } in
      let s₂ = (save_store identity (stored agent name parsed entry configs) s₁).1 in
      let action : String = if has (lower name) agent.name_map then "UPDATE" else "NEW" in
      let (updates, sent) =
        send_update_any env caught wanted identity
          (changed identity action name parsed trigger_callback) s₂ in
      (
        configs,
        entry,
        record s₂ { updates = updates },
        rw made' (rw passes (rw taken sent)),
        rw
            (
              lookup-insert identity identity (stored agent name parsed entry configs) s₁.stores,
              eq_refl identity,
            )
            refl,
        refl,
      )

  -- A configuration that is stored is read back, under its name in any letter case and with any
  -- border of white space and slashes: as the text that was given, and as what that was parsed to.
  -- The call succeeds whatever the agent answers, if no chain of links leads back to the name: what
  -- a call of the agent raises is an `Exception` or a `Timeout`.
  pub get_config-set_config :
      process_raw_config env raw config_type ≡ ok parsed
      → check_for_recursion name parsed (current identity s).configs ≡ some false
      → (s' : ConfigStore) × (set_config env identity config_name raw config_type trigger_callback
            wanted s
          ≡ (ok tt, s'))
        × ((other : String)
            → lower (strip_config_name other) ≡ lower name
            → (get_config identity other true s' ≡ ok (str raw))
              × (get_config identity other false s' ≡ ok parsed))
  unfolding set_config ◌>>=◌
  get_config-set_config processed passes =
      let (configs, entry, s', e, there, same) = add_config_to_store_ok passes in
      (
        s',
        rw processed e,
        λ other alike. rw same at (
            get_config-stored identity other name parsed entry configs (current identity s) s' there
              alike),
      )

  -- Stored again in other letters, a configuration leaves its old name behind on disk: the call
  -- succeeds, the old entry stays in the store that is saved, and in lower case the old name stands
  -- for the new one.
  pub set_config_stale :
      (old : String)
      → process_raw_config env raw config_type ≡ ok parsed
      → check_for_recursion name parsed (current identity s).configs ≡ some false
      → lookup (lower name) (current identity s).name_map ≡ some old
      → (old == name) ≡ false
      → (s' : ConfigStore) × (agent : AgentStore) × (set_config env identity config_name raw
            config_type trigger_callback wanted s
          ≡ (ok tt, s'))
        × (lookup identity s'.stores ≡ some agent)
        × (has old agent.store ≡ true)
        × (has name agent.store ≡ true)
        × (lookup (lower old) agent.name_map ≡ some name)
  unfolding set_config ◌>>=◌
  set_config_stale old processed passes known other =
      let agent = current identity s in
      let (configs, entry, s', e, there, same) = add_config_to_store_ok passes in
      let (alike, _, kept) = (current-IsTidy identity s settled).named (lower name) old known in
      (
        s',
        stored agent name parsed entry configs,
        rw processed e,
        there,
        ground (arith, has-insert name old entry agent.store, kept),
        ground (arith, has-insert name name entry agent.store, beq_refl name),
        ground (
          arith,
          lookup-insert (lower name) (lower old) name agent.name_map,
          alike,
          beq_refl (lower name),
        ),
      )

-- The name stands for no configuration of the agent.
abbrev pub IsMissing : String → String → ConfigStore → Type 0
IsMissing identity config_name s = named identity config_name s ≡ raised key_error
