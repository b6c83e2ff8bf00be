-- ===== src/Config/Store.antt =====
-- `ConfigStoreService`: the stores of the agents, and how they are read and written.
use text.Mathlib.Text.{is_le}
use Prim.Native.String.{compare}
use volttron_core.Prelude.{
  String, Bool, Option, none, some, List, [], ◌∷◌, is_empty, if◌then◌else◌, string_eq,
}
use volttron_core.Py.Dict.{Dict, lookup, get_or, has, insert, remove, keys}
use volttron_core.Py.Exec.{Exec, modify}
use volttron_core.Py.Result.{Result, ok, raised, Exception, key_error, ◌>>=◌}
use volttron_core.Py.Text.{lower}
use volttron_core.Py.Value.{Value, str}
use volttron_core.Config.Links.{strip_config_name}

-- {"type": ..., "modified": ..., "data": ...}
pub record DiskEntry : Type 0 where
  pub kind : String
  pub modified : Value
  pub contents : String

abbrev pub Disk : Type 0
Disk = Dict DiskEntry

pub record AgentStore : Type 0 where
  pub configs : Dict Value
  pub store : Disk
  pub name_map : Dict String

-- A call of "config.update" or "config.initial_update" at an agent.
pub data Update : Type 0 where
  changed : String → String → String → Value → Bool → Update
  deleted : String → String → Bool → Update
  deleted_all : String → Update
  initial : String → Dict Value → Update

-- `store`, the copies last handed over for the files of the stores, and the calls made to agents.
pub record ConfigStore : Type 0 where
  pub stores : Dict AgentStore
  pub handed_over : Dict Disk
  pub updates : List Update

abbrev pub Action {ℓ} : Type ℓ → Type ℓ
Action A = Exec ConfigStore A

-- What is not the service's own: the parsers, the clock, the peers, and what a call raises.
pub record Env : Type 0 where
  pub parse_json_config : String → Result Value
  pub read_csv : String → Result Value
  pub dumps : Value → String
  pub now : ConfigStore → Value
  pub is_peer : String → Bool
  pub answer : Update → Option Exception

-- `list.sort` of texts
unfoldable pub insert_sorted : String → List String → List String
insert_sorted name [] = name ∷ []
insert_sorted name (other ∷ names) =
    if is_le (compare name other) then name ∷ other ∷ names else other ∷ insert_sorted name names

unfoldable pub sorted : List String → List String
sorted [] = []
sorted (name ∷ names) = insert_sorted name (sorted names)

-- d[key]
unfoldable pub dict_item {ℓ} : {V : Type ℓ} → String → Dict V → Result V
dict_item key d = elim (lookup key d) [ none ↦ raised key_error | some v ↦ ok v ]

-- `del d[key]`, `d.pop(key)`
unfoldable pub dict_pop {ℓ} : {V : Type ℓ} → String → Dict V → Result (Dict V)
dict_pop key d = if has key d then ok (remove key d) else raised key_error

unfoldable pub list_configs : String → ConfigStore → List String
list_configs identity s = elim (lookup identity s.stores) [
  | none ↦ sorted []
  | some agent ↦ sorted (keys agent.store)
]

unfoldable pub list_stores : ConfigStore → List String
list_stores s = sorted (keys s.stores)

-- The store of an agent, and the name under which it has a configuration.
unfoldable pub named : String → String → ConfigStore → Result (AgentStore × String)
unfolding dict_item
named identity config_name s = do
  agent ← dict_item identity s.stores
  name ← dict_item (lower (strip_config_name config_name)) agent.name_map
  ok (agent, name)

-- What `get_config` returns: the text as it was given, or what it was parsed to.
unfoldable pub get_config : String → String → Bool → ConfigStore → Result Value
unfolding named dict_item
get_config identity config_name raw s = do
  found ← named identity config_name s
  let text : Result Value = (do entry ← dict_item found.1 found.0.store; ok (str entry.contents))
  (if raw then text else dict_item found.1 found.0.configs)

unfoldable pub get_metadata : String → String → ConfigStore → Result DiskEntry
unfolding named dict_item
get_metadata identity config_name s = do
  found ← named identity config_name s
  dict_item found.1 found.0.store

unfoldable pub put_store : String → AgentStore → Action (Unit {0})
put_store identity agent = modify λ s. record s { stores = insert identity agent s.stores }

-- `async_sync` of `PersistentDict` puts a copy on the queue of a worker thread, which writes it to the
-- file, or removes the file if the copy is empty. `handed_over` has the copies; when they are written,
-- and whether the write succeeds, is not modelled.
unfoldable pub async_sync : String → Disk → Action (Unit {0})
async_sync identity disk = modify λ s. record s {
  handed_over =
      if is_empty disk then remove identity s.handed_over else insert identity disk s.handed_over;
}

-- `if not agent_disk_store: self.store.pop(identity, None)`
unfoldable pub pop_if_empty : String → Disk → Action (Unit {0})
pop_if_empty identity disk =
    modify λ s. record s { stores = if is_empty disk then remove identity s.stores else s.stores }

-- `PersistentDict(filename=store_path, ...)` reads the file, to which the copy that was handed over
-- last is taken to have been written.
unfoldable pub new_store : String → ConfigStore → AgentStore
new_store identity s = record {
  configs = [];
  store = get_or identity s.handed_over [];
  name_map = [];
}

-- `agent_store`, which is made where there is none
unfoldable pub agent_store : String → Action AgentStore
unfolding new_store put_store
agent_store identity s = elim (lookup identity s.stores) [
  | some agent ↦ (ok agent, s)
  | none ↦
      let agent = new_store identity s in
      (ok agent, record s { stores = insert identity agent s.stores })
]
