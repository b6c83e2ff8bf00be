-- ===== src/Config/Settled.antt =====
-- What holds of the configuration store between calls, and the steps that keep it.
use volttron_core.Prelude.{
  String, ◌≡◌, refl, Bool, not, Option, none, some, [], ◌∷◌, arith, is_empty, ◌==◌, string_eq,
  if◌then◌else◌, Bool-cases, Option-cases, inl, inr,
}
use mathlib.Core.Path.{subst}
use text.Mathlib.TextEquality.{eq_iff}
use volttron_core.Py.Dict.{
  Dict, lookup, get_or, insert, remove, lookup-insert, lookup-remove, get_or-insert, get_or-remove,
}
use volttron_core.Py.Exec.{modify, ◌>>=◌}
use volttron_core.Py.Keeps.{Keeps, Gives, keeps_rules, Keeps-guard}
use volttron_core.Py.Result.{ok, Exception}
use volttron_core.Py.Text.{lower}
use volttron_core.Config.Links.{strip_config_name}
use volttron_core.Config.Store.{
  AgentStore, Disk, ConfigStore, named, dict_item, put_store, async_sync, pop_if_empty, agent_store,
  new_store,
}
use volttron_core.Config.Service.{save_store, answered, refuse_recursion}
use volttron_core.Config.Tidy.{IsTidy, empty-IsTidy}

-- Every store is tidy, and the copy last handed over for its file holds what it holds.
pub record IsSettled (s : ConfigStore) : Type 0 where
  pub tidy :
      (identity : String) (agent : AgentStore)
      → lookup identity s.stores ≡ some agent
      → IsTidy agent
  pub saved :
      (identity : String) (agent : AgentStore)
      → lookup identity s.stores ≡ some agent
      → get_or identity s.handed_over [] ≡ agent.store

pub file_of_disk :
    (identity other : String) (disk : Disk) (files : Dict Disk)
    → get_or other (if is_empty disk then remove identity files else insert identity disk files) []
      ≡ (if identity == other then disk else get_or other files [])
file_of_disk identity other [] files = get_or-remove identity other [] files
file_of_disk identity other (entry ∷ disk) files =
    get_or-insert identity other (entry ∷ disk) [] files

pub save_store-IsSettled :
    (identity : String) (agent : AgentStore)
    → IsTidy agent
    → Keeps IsSettled (save_store identity agent)
unfolding save_store put_store async_sync ◌>>=◌
save_store-IsSettled identity agent t = record {
  at = λ s h. record {
    tidy = λ other a e. elim (Bool-cases (identity == other)) [
      | inl same ↦
          let it : agent ≡ a =
            ground (arith, e, lookup-insert identity other agent s.stores, same) in
          subst IsTidy it t
      | inr diff ↦
          h.tidy other a (ground (arith, e, lookup-insert identity other agent s.stores, diff))
    ];
    saved = λ other a e. ground (
      arith,
      e,
      lookup-insert identity other agent s.stores,
      file_of_disk identity other agent.store s.handed_over,
      h.saved other a,
    );
  };
}

pub pop_if_empty-IsSettled :
    (identity : String) (disk : Disk) → Keeps IsSettled (pop_if_empty identity disk)
unfolding pop_if_empty modify
pop_if_empty-IsSettled identity [] = record {
  at = λ s h. record {
    tidy = λ other a e. h.tidy other a (ground (arith, e, lookup-remove identity other s.stores));
    saved = λ other a e. h.saved other a (ground (arith, e, lookup-remove identity other s.stores));
  };
}
pop_if_empty-IsSettled identity (entry ∷ disk) = record {
  at = λ s h. record { tidy = h.tidy; saved = h.saved };
}

-- The store of an agent, made from its file where there is none.
abbrev pub made : String → ConfigStore → ConfigStore
made identity s = record s { stores = insert identity (new_store identity s) s.stores }

pub agent_store_found :
    (identity : String) (agent : AgentStore) (s : ConfigStore)
    → lookup identity s.stores ≡ some agent
    → agent_store identity s ≡ (ok agent, s)
unfolding agent_store
agent_store_found identity agent s e = rw (e, agent_store) refl

pub agent_store_missing :
    (identity : String) (s : ConfigStore)
    → lookup identity s.stores ≡ none
    → agent_store identity s ≡ (ok (new_store identity s), made identity s)
unfolding agent_store
agent_store_missing identity s e = rw (e, agent_store) refl

pub made-IsSettled :
    (identity : String) (s : ConfigStore) → IsSettled s → IsSettled (made identity s)
unfolding new_store
made-IsSettled identity s h = record {
  tidy = λ other a e. elim (Bool-cases (identity == other)) [
    | inl same ↦
        let it : new_store identity s ≡ a =
          ground (arith, e, lookup-insert identity other (new_store identity s) s.stores, same) in
        subst IsTidy it (empty-IsTidy _)
    | inr diff ↦
        h.tidy other a
          (ground (arith, e, lookup-insert identity other (new_store identity s) s.stores, diff))
  ];
  saved = λ other a e. ground (
    arith,
    e,
    lookup-insert identity other (new_store identity s) s.stores,
    h.saved other a,
    eq_iff identity other,
  );
}

pub agent_store-IsTidy : (identity : String) → Gives IsSettled IsTidy (agent_store identity)
unfolding new_store
agent_store-IsTidy identity = record {
  keeps = record {
    at = λ s h. elim (Option-cases (lookup identity s.stores)) [
      | inl e ↦ rw (agent_store_missing identity s e) (made-IsSettled identity s h)
      | inr (agent, e) ↦ rw (agent_store_found identity agent s e) h
    ];
  };
  gives = λ s h a e. elim (Option-cases (lookup identity s.stores)) [
    | inl m ↦
        let it : new_store identity s ≡ a = cc (agent_store_missing identity s m, e) in
        subst IsTidy it (empty-IsTidy _)
    | inr (agent, f) ↦
        let it : agent ≡ a = cc (agent_store_found identity agent s f, e) in
        subst IsTidy it (h.tidy identity agent f)
  ];
}

pub answered-IsSettled :
    (caught : Exception → Bool) (answer : Option Exception)
    → Keeps IsSettled (answered caught answer)
unfolding answered
answered-IsSettled caught none = search keeps_rules
answered-IsSettled caught (some e) = search keeps_rules

pub refuse_recursion-IsSettled : (found : Option Bool) → Keeps IsSettled (refuse_recursion found)
unfolding refuse_recursion
refuse_recursion-IsSettled none = search keeps_rules
refuse_recursion-IsSettled (some found) = Keeps-guard (not found) _

pub named-eq-ok :
    (identity config_name : String) (s : ConfigStore) (agent : AgentStore) (name : String)
    → named identity config_name s ≡ ok (agent, name)
    → (lookup identity s.stores ≡ some agent)
      × (lookup (lower (strip_config_name config_name)) agent.name_map ≡ some name)
unfolding named dict_item
named-eq-ok identity config_name s agent name e = ground arith
