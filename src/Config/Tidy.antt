-- ===== src/Config/Tidy.antt =====
-- The invariant of an agent's store: the names in lower case, and the configurations under them.
use volttron_core.Prelude.{
  String, ◌≡◌, refl, true, false, some, [], arith, ◌==◌, string_eq, if◌then◌else◌, Option-cases,
  inl, inr,
}
use text.Mathlib.TextEquality.{eq_iff}
use volttron_core.Py.Dict.{
  Dict, lookup, has, insert, remove, lookup-insert, lookup-remove, has-insert, has-remove,
}
use volttron_core.Py.Result.{ok}
use volttron_core.Py.Text.{lower}
use volttron_core.Py.Value.{Value}
use volttron_core.Config.Store.{AgentStore, DiskEntry, dict_pop}
use volttron_core.Config.Service.{without_old, pop_config}

-- A name in lower case stands for a configuration that is there under a name which reads so, and
-- every configuration has such a name.
pub record IsTidy (agent : AgentStore) : Type 0 where
  pub named :
      (key name : String)
      → lookup key agent.name_map ≡ some name
      → (lower name ≡ key) × (has name agent.configs ≡ true) × (has name agent.store ≡ true)
  pub known :
      (name : String)
      → has name agent.configs ≡ true
      → lookup (lower name) agent.name_map ≡ some name

pub empty-IsTidy :
    (disk : Dict DiskEntry) → IsTidy (record { configs = []; store = disk; name_map = [] })
unfolding lookup has
empty-IsTidy disk = record { named = λ key name e. cc; known = λ name e. cc }

-- Taking the old configuration out of a tidy store succeeds.
pub without_old-ok :
    (agent : AgentStore) (key : String)
    → IsTidy agent
    → (configs : Dict Value) × (without_old (lookup key agent.name_map) agent.configs ≡ ok configs)
unfolding without_old dict_pop
without_old-ok agent key t = elim (Option-cases (lookup key agent.name_map)) [
  | inl missing ↦ (agent.configs, rw missing refl)
  | inr (old, found) ↦
      (remove old agent.configs, rw (found, without_old) (rw (t.named key old found).1 refl))
]

-- What is left then: all configurations but the one that the name stood for.
has-without_old :
    (agent : AgentStore) (key name : String) (configs : Dict Value)
    → IsTidy agent
    → without_old (lookup key agent.name_map) agent.configs ≡ ok configs
    → has name configs ≡ (if key == lower name then false else has name agent.configs)
unfolding without_old dict_pop
has-without_old agent key name configs t e = elim (Option-cases (lookup key agent.name_map)) [
  | inl missing ↦ ground (arith, missing, e, eq_iff key (lower name), t.known name)
  | inr (old, found) ↦ ground (
    arith,
    found,
    e,
    has-remove old name agent.configs,
    eq_iff key (lower name),
    eq_iff old name,
    t.known name,
    t.named key old found,
  )
]

module _ (agent : AgentStore) (name : String) (parsed : Value) (entry : DiskEntry)
    (configs : Dict Value) where
  abbrev pub stored : AgentStore
  stored = record {
    configs = insert name parsed configs;
    store = insert name entry agent.store;
    name_map = insert (lower name) name agent.name_map;
  }

  pub stored-IsTidy :
      IsTidy agent
      → without_old (lookup (lower name) agent.name_map) agent.configs ≡ ok configs
      → IsTidy stored
  stored-IsTidy t e = record {
    named = λ k n h. ground (
      arith,
      h,
      lookup-insert (lower name) k name agent.name_map,
      eq_iff (lower name) k,
      t.named k n,
      has-insert name n parsed configs,
      has-insert name n entry agent.store,
      has-without_old agent (lower name) n configs t e,
      eq_iff (lower name) (lower n),
      eq_iff name n,
    );
    known = λ n h. ground (
      arith,
      h,
      lookup-insert (lower name) (lower n) name agent.name_map,
      eq_iff (lower name) (lower n),
      t.known n,
      has-insert name n parsed configs,
      has-without_old agent (lower name) n configs t e,
      eq_iff name n,
    );
  }

module _ (agent : AgentStore) (key name : String) where
  abbrev pub popped : AgentStore
  popped = record {
    configs = remove name agent.configs;
    store = remove name agent.store;
    name_map = remove key agent.name_map;
  }

  pub pop_config-ok :
      IsTidy agent
      → lookup key agent.name_map ≡ some name
      → pop_config key name agent ≡ (ok tt, popped)
  unfolding pop_config dict_pop
  pop_config-ok t e =
      let (_, c, d) = t.named key name e in rw (c, pop_config) (rw (d, pop_config) refl)

  pub popped-IsTidy : IsTidy agent → lookup key agent.name_map ≡ some name → IsTidy popped
  popped-IsTidy t e = record {
    named = λ k n h. ground (
      arith,
      h,
      lookup-remove key k agent.name_map,
      eq_iff key k,
      t.named k n,
      t.named key name e,
      has-remove name n agent.configs,
      has-remove name n agent.store,
      eq_iff name n,
    );
    known = λ n h. ground (
      arith,
      h,
      lookup-remove key (lower n) agent.name_map,
      eq_iff key (lower n),
      t.known n,
      has-remove name n agent.configs,
      eq_iff name n,
    );
  }
