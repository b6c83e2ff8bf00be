-- ===== src/Config/View.antt =====
-- What a client sees of the configuration store: for each agent and each name in lower case, the
-- text that was stored and what it was parsed to.
use text.Mathlib.TextEquality.{eq_iff}
use volttron_core.Prelude.{
  String, ◌≡◌, refl, true, false, Option, none, some, [], ◌∷◌, arith, ◌==◌, string_eq, is_empty,
  beq_refl, if◌then◌else◌, Bool-cases, Option-cases, inl, inr,
}
use volttron_core.Py.Dict.{Dict, lookup, has, lookup-insert, lookup-remove}
use volttron_core.Py.Result.{ok}
use volttron_core.Py.Text.{lower}
use volttron_core.Py.Value.{Value}
use volttron_core.Config.Store.{
  AgentStore, DiskEntry, Disk, ConfigStore, put_store, async_sync, pop_if_empty, agent_store,
  new_store,
}
use volttron_core.Config.Service.{save_store, without_old}
use volttron_core.Config.Store.{dict_pop}
use volttron_core.Config.Tidy.{IsTidy, stored, popped}
use volttron_core.Config.Settled.{agent_store_found, agent_store_missing, made}
use volttron_core.Config.ReadBack.{current}
use volttron_core.Py.Exec.{◌>>=◌, modify}
use volttron_core.Py.Keeps.{Keeps}

abbrev pub Entry : Type 0
Entry = Option (String × Value)

abbrev pub View : Type 0
View = String → String → Entry

abbrev entry_of : Option DiskEntry → Option Value → Entry
entry_of (some entry) (some parsed) = some (entry.contents, parsed)
entry_of _ _ = none

unfoldable pub agent_view : AgentStore → String → Entry
agent_view agent key = elim (lookup key agent.name_map) [
  | none ↦ none
  | some name ↦ entry_of (lookup name agent.store) (lookup name agent.configs)
]

unfoldable pub view : ConfigStore → View
view s identity key = elim (lookup identity s.stores) [
  | none ↦ none
  | some agent ↦ agent_view agent key
]

-- The store looks like this to a client.
abbrev pub Shows : View → ConfigStore → Type 0
Shows v s = (identity key : String) → view s identity key ≡ v identity key

stored-lookup :
    (agent : AgentStore) (key other : String) (configs : Dict Value)
    → IsTidy agent
    → without_old (lookup key agent.name_map) agent.configs ≡ ok configs
    → (lower other == key) ≡ false
    → lookup other configs ≡ lookup other agent.configs
unfolding without_old dict_pop
stored-lookup agent key other configs t e diff = elim (Option-cases (lookup key agent.name_map)) [
  | inl missing ↦ ground (arith, missing, e)
  | inr (old, found) ↦ ground (
    arith,
    found,
    e,
    diff,
    lookup-remove old other agent.configs,
    eq_iff old other,
    eq_iff (lower other) key,
    t.named key old found,
  )
]

-- Storing a configuration changes what its name shows, and nothing else.
pub agent_view-stored :
    (agent : AgentStore) (name key : String) (parsed : Value) (entry : DiskEntry)
    (configs : Dict Value)
    → IsTidy agent
    → without_old (lookup (lower name) agent.name_map) agent.configs ≡ ok configs
    → agent_view (stored agent name parsed entry configs) key
      ≡ (if lower name == key then some (entry.contents, parsed) else agent_view agent key)
unfolding agent_view
agent_view-stored agent name key parsed entry configs t e = elim (Bool-cases (lower name == key)) [
  | inl same ↦ ground (
    arith,
    same,
    lookup-insert (lower name) key name agent.name_map,
    lookup-insert name name entry agent.store,
    lookup-insert name name parsed configs,
    beq_refl name,
  )
  | inr diff ↦ elim (Option-cases (lookup key agent.name_map)) [
    | inl missing ↦
        ground (arith, diff, missing, lookup-insert (lower name) key name agent.name_map)
    | inr (other, found) ↦ ground (
      arith,
      diff,
      found,
      lookup-insert (lower name) key name agent.name_map,
      lookup-insert name other entry agent.store,
      lookup-insert name other parsed configs,
      eq_iff name other,
      eq_iff (lower other) (lower name),
      eq_iff (lower name) key,
      t.named key other found,
      stored-lookup agent (lower name) other configs t e,
    )
  ]
]

-- And deleting one.
pub agent_view-popped :
    (agent : AgentStore) (key name other : String)
    → IsTidy agent
    → lookup key agent.name_map ≡ some name
    → agent_view (popped agent key name) other
      ≡ (if key == other then none else agent_view agent other)
unfolding agent_view
agent_view-popped agent key name other t e = elim (Option-cases (lookup other agent.name_map)) [
  | inl missing ↦ ground (arith, missing, lookup-remove key other agent.name_map)
  | inr (found_name, found) ↦ ground (
    arith,
    found,
    e,
    lookup-remove key other agent.name_map,
    lookup-remove name found_name agent.store,
    lookup-remove name found_name agent.configs,
    eq_iff key other,
    eq_iff name found_name,
    t.named other found_name found,
    t.named key name e,
  )
]

has_empty : (name : String) (disk : Disk) → is_empty disk ≡ true → has name disk ≡ false
unfolding has lookup
has_empty name [] e = refl
has_empty name (entry ∷ disk) e = cc

-- A store with no entries shows nothing.
pub agent_view-empty :
    (agent : AgentStore) (key : String)
    → IsTidy agent
    → is_empty agent.store ≡ true
    → agent_view agent key ≡ none
unfolding agent_view
agent_view-empty agent key t e = elim (Option-cases (lookup key agent.name_map)) [
  | inl missing ↦ rw (missing, agent_view) refl
  | inr (name, found) ↦
      let (_, _, there) = t.named key name found in
      ground (arith, there, has_empty name agent.store e)
]

pub view-saved :
    (identity other key : String) (agent : AgentStore) (s : ConfigStore)
    → view (save_store identity agent s).1 other key
      ≡ (if identity == other then agent_view agent key else view s other key)
unfolding view save_store put_store async_sync ◌>>=◌
view-saved identity other key agent s = ground (arith, lookup-insert identity other agent s.stores)

pub save_store-Shows :
    (identity : String) (agent : AgentStore) (s : ConfigStore) (v : View)
    → ((other key : String)
        → (if identity == other then agent_view agent key else view s other key) ≡ v other key)
    → Shows v (save_store identity agent s).1
save_store-Shows identity agent s v h =
    λ other key. rw (view-saved identity other key agent s) (h other key)

pub pop_if_empty-Shows :
    (identity : String) (disk : Disk) (v : View)
    → (is_empty disk ≡ true → (key : String) → v identity key ≡ none)
    → Keeps (Shows v) (pop_if_empty identity disk)
unfolding pop_if_empty modify view
pop_if_empty-Shows identity [] v h = record {
  at = λ s shows other key. ground (
    arith,
    lookup-remove identity other s.stores,
    eq_iff identity other,
    h refl key,
    shows other key,
  );
}
pop_if_empty-Shows identity (entry ∷ disk) v h = record { at = λ s shows. shows }

-- Making the store of an agent shows nothing new.
pub agent_store-Shows :
    (identity : String) (s : ConfigStore)
    → (s' : ConfigStore) × (agent_store identity s ≡ (ok (current identity s), s'))
      × Shows (view s) s'
unfolding view new_store agent_view lookup
agent_store-Shows identity s = elim (Option-cases (lookup identity s.stores)) [
  | inl missing ↦ (
    made identity s,
    rw missing (agent_store_missing identity s missing),
    λ other key. ground (
      arith,
      missing,
      lookup-insert identity other (new_store identity s) s.stores,
      eq_iff identity other,
    ),
  )
  | inr (agent, found) ↦ (s, rw found (agent_store_found identity agent s found), λ other key. refl)
]

-- What an agent's store shows is what the agent's part of the whole shows.
pub view-current :
    (identity key : String) (s : ConfigStore)
    → view s identity key ≡ agent_view (current identity s) key
unfolding view agent_view new_store lookup
view-current identity key s = elim (Option-cases (lookup identity s.stores)) [
  | inl missing ↦ rw (missing, view) refl
  | inr (agent, found) ↦ rw (found, view) refl
]

pub view-found :
    (identity key : String) (s : ConfigStore) (agent : AgentStore)
    → lookup identity s.stores ≡ some agent
    → view s identity key ≡ agent_view agent key
unfolding view
view-found identity key s agent found = ground (arith, found)
