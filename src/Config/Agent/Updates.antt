-- ===== src/Config/Agent/Updates.antt =====
-- The maps of references under `_update_config`.
use text.Mathlib.TextEquality.{eq_iff}
use volttron_core.Prelude.{
  String, ◌≡◌, refl, Bool, true, false, Option, none, some, List, [], ◌∷◌, arith, contains,
  if◌then◌else◌, string_eq, beq_refl, Bool-cases, Option-cases, inl, inr,
}
use volttron_core.Py.Dict.{
  Dict, Each, lookup, get_or, has, lookup-insert, get_or-missing, lookup-eq-none,
}
use volttron_core.Py.Exec.{modify, pure, continue, ◌>>=◌}
use volttron_core.Py.Keeps.{
  Keeps, keeps_rules, Keeps-bind, Keeps-then, Keeps-if, Keeps-pure, Keeps-lift, Keeps-gets,
}
use volttron_core.Py.Result.{Result, ok, raised, Exception}
use volttron_core.Py.Text.{lower}
use volttron_core.Py.Value.{Value}
use volttron_core.Config.Links.{list_unique_links}
use volttron_core.Config.Agent.{AgentConfig, Gathered, add_refs}
use volttron_core.Config.Agent.Gather.{gather_affected}
use volttron_core.Config.Agent.Affected.{gather_affected_enough}
use volttron_core.Config.Agent.References.{IsIndexed, add_refs-IsIndexed}
use volttron_core.Config.Agent.Local.{
  initial_update, add_each, add_defaults, lower_keys, mark, delete_local, delete_all_local,
  update_store, drop_name, clear_names, forget_names,
}
use volttron_core.Config.Agent.Calls.{
  AgentEnv, failed, call_back, call_each, process_callbacks_one_config, process_each, process_main,
  process_callbacks, update_initialized, update_config,
}
use volttron_core.Config.Agent.Current.{
  IsCurrent, IsCurrentBut, effective_links, gather_affected-IsCurrentBut, set_local-IsCurrent,
  without, without-IsCurrentBut, delete_refs-IsCurrent, update_refs-IsCurrent,
}

-- After the referrers have been gathered.
gathered_but :
    (key action : String) (default : Option Value) (s : AgentConfig)
    → lookup key s.default_store ≡ default
    → IsCurrent s
    → (affected : Dict String) × (t : AgentConfig) × (gather_affected key
          ((key, action) ∷ [])
          (without key s)
        ≡ (ok affected, t))
      × IsCurrentBut key default t
gathered_but key action default s same h =
    let (affected, t, e) = gather_affected_enough key ((key, action) ∷ []) (without key s) in
    let but =
      (gather_affected-IsCurrentBut key (lookup key s.default_store) key ((key, action) ∷ [])).at
        (without key s) (without-IsCurrentBut key s h) in
    (affected, t, e, rw same at (rw e at but))

delete_local-IsCurrent : (key : String) → Keeps IsCurrent (delete_local key)
unfolding delete_local pure ◌>>=◌
delete_local-IsCurrent key = record {
  at = λ s h. elim (Bool-cases (has key s.store)) [
    | inr missing ↦ rw missing h
    | inl there ↦ elim (Option-cases (lookup key s.default_store)) [
      | inl plain ↦
          let (affected, t, e, but) = gathered_but key "DELETE" none s plain h in
          let (u, e', current) = delete_refs-IsCurrent key t but in
          rw there (rw plain (rw e (rw e' current)))
      | inr (contents, default) ↦
          let (affected, t, e, but) = gathered_but key "UPDATE" (some contents) s default h in
          let (u, e', current) = update_refs-IsCurrent key contents t but in
          rw there (rw default (rw e (rw e' current)))
    ]
  ];
}

-- The loop over the defaults, where nothing is stored: those behind have no references yet.
record IsAdding (configs : Dict Value) (s : AgentConfig) : Type 0 where
  pub indexed : IsIndexed s
  pub in_effect :
      (name : String)
      → lookup name s.ref_map
        ≡ (if has name configs then none else effective_links none (lookup name s.default_store))
  pub nothing_stored : s.store ≡ []
  pub inside :
      (name : String) (contents : Value)
      → lookup name configs ≡ some contents
      → lookup name s.default_store ≡ some contents
  pub defaults : Each (λ _. Unit {0}) s.default_store

add_defaults-IsCurrent :
    (configs : Dict Value) (s : AgentConfig)
    → Each (λ _. Unit {0}) configs
    → IsAdding configs s
    → IsCurrent (add_defaults configs s).1
unfolding add_defaults add_refs modify pure has lookup ◌>>=◌
add_defaults-IsCurrent [] s distinct h = record {
  indexed = h.indexed;
  in_effect = λ name. rw h.nothing_stored (h.in_effect name);
  defaults = h.defaults;
}
add_defaults-IsCurrent ((name, contents) ∷ configs) s (new, _, distinct) h =
    let absent : has name s.store ≡ false = rw h.nothing_stored refl in
    let here = h.inside name contents (rw (beq_refl name) refl) in
    let empty : get_or name s.ref_map [] ≡ [] =
      get_or-missing name [] s.ref_map (ground (arith, h.in_effect name, beq_refl name)) in
    rw absent (
      add_defaults-IsCurrent configs (add_refs name contents s).1 distinct (record {
        indexed = add_refs-IsIndexed name contents s h.indexed empty;
        in_effect = λ other. ground (
          arith,
          lookup-insert name other (list_unique_links contents) s.ref_map,
          h.in_effect other,
          eq_iff name other,
          new,
          here,
        );
        nothing_stored = h.nothing_stored;
        inside = λ other v e. h.inside other v (ground (arith, e, eq_iff name other, new));
        defaults = h.defaults;
      }))

-- Nothing is stored, and no references are left.
abbrev cleared : AgentConfig → AgentConfig
cleared s = record s { ref_map = []; reverse_ref_map = []; initialized = true; store = [] }

then_value :
    (o : Result (Unit {0}) × AgentConfig) (affected : Dict String)
    → IsCurrent o.1
    → IsCurrent (continue o.0 (λ _. pure affected) o.1).1
unfolding pure
then_value (ok _, s) affected h = h
then_value (raised e, s) affected h = h

delete_all_local-IsCurrent : Keeps IsCurrent delete_all_local
unfolding delete_all_local initial_update add_each lower_keys lookup get_or has contains pure ◌>>=◌
delete_all_local-IsCurrent = record {
  at = λ s h.
      then_value (add_defaults s.default_store (cleared s))
        (mark "UPDATE" s.default_store (mark "DELETE" s.store []))
        (add_defaults-IsCurrent s.default_store (cleared s) h.defaults (record {
          indexed = record { distinct = λ name. tt; exact = λ name ref. refl };
          in_effect = λ name. ground (arith, lookup-eq-none name s.default_store);
          nothing_stored = refl;
          inside = λ name contents e. e;
          defaults = h.defaults;
        }));
}

update_store-IsCurrent :
    (action config_name : String) (contents : Value)
    → Keeps IsCurrent (update_store action config_name contents)
unfolding update_store
update_store-IsCurrent action config_name contents =
    Keeps-if _ _ _ (delete_local-IsCurrent (lower config_name)) (
      Keeps-if _ _ _ delete_all_local-IsCurrent
        (Keeps-if _ _ _ (set_local-IsCurrent action config_name contents) (Keeps-pure [])))

-- What does not concern the references.
aside :
    (s t : AgentConfig)
    → s.ref_map ≡ t.ref_map
    → s.reverse_ref_map ≡ t.reverse_ref_map
    → s.store ≡ t.store
    → s.default_store ≡ t.default_store
    → IsCurrent s
    → IsCurrent t
aside s t a b c d h = record {
  indexed = record {
    distinct = λ name. rw (← a) (h.indexed.distinct name);
    exact = λ name ref. rw (← a, ← b) (h.indexed.exact name ref);
  };
  in_effect = λ name. rw (← a, ← c, ← d) (h.in_effect name);
  defaults = rw (← d) h.defaults;
}

drop_name-IsCurrent : (key : String) → Keeps IsCurrent (drop_name key)
unfolding drop_name modify
drop_name-IsCurrent key = Keeps-bind _ _ (Keeps-gets _) λ names.
    Keeps-bind _ _ (Keeps-lift _) λ names'. record { at = λ s h. aside s _ refl refl refl refl h }

clear_names-IsCurrent : Keeps IsCurrent clear_names
unfolding clear_names modify
clear_names-IsCurrent = record { at = λ s h. aside s _ refl refl refl refl h }

forget_names-IsCurrent : (action key : String) → Keeps IsCurrent (forget_names action key)
unfolding forget_names
forget_names-IsCurrent action key =
    Keeps-if _ _ _ (drop_name-IsCurrent key) (Keeps-if _ _ _ clear_names-IsCurrent (Keeps-pure tt))

module _ (env : AgentEnv) where
  failed-IsCurrent : (answer : Option Exception) → Keeps IsCurrent (failed env answer)
  unfolding failed
  failed-IsCurrent none = search keeps_rules
  failed-IsCurrent (some e) = search keeps_rules

  call_back-IsCurrent :
      (callback action : String) (name : Result String) (contents : Result Gathered)
      → Keeps IsCurrent (call_back env callback action name contents)
  unfolding call_back modify
  call_back-IsCurrent callback action (ok name) (ok contents) =
      Keeps-then _ _ (record { at = λ s h. aside s _ refl refl refl refl h }) (failed-IsCurrent _)
  call_back-IsCurrent callback action (ok name) (raised e) = failed-IsCurrent _
  call_back-IsCurrent callback action (raised e) (ok contents) = failed-IsCurrent _
  call_back-IsCurrent callback action (raised e) (raised e') = failed-IsCurrent _

  call_each-IsCurrent :
      (name action : String) (names : Dict String) (callbacks : List String)
      → Keeps IsCurrent (call_each env name action names callbacks)
  unfolding call_each
  call_each-IsCurrent name action names [] = Keeps-pure tt
  call_each-IsCurrent name action names (callback ∷ callbacks) =
      Keeps-bind _ _ (Keeps-gets _) λ contents.
        Keeps-then _ _ (call_back-IsCurrent callback action _ contents)
          (call_each-IsCurrent name action names callbacks)

  one_config-IsCurrent :
      (name action : String) (names : Dict String)
      → Keeps IsCurrent (process_callbacks_one_config env name action names)
  unfolding process_callbacks_one_config
  one_config-IsCurrent name action names =
      Keeps-bind _ _ (Keeps-gets _) λ callbacks. call_each-IsCurrent name action names callbacks

  process_each-IsCurrent :
      (affected names : Dict String) → Keeps IsCurrent (process_each env affected names)
  unfolding process_each
  process_each-IsCurrent [] names = Keeps-pure tt
  process_each-IsCurrent ((name, action) ∷ affected) names =
      Keeps-then _ _ (Keeps-if _ _ _ (Keeps-pure tt) (one_config-IsCurrent name action names))
        (process_each-IsCurrent affected names)

  process_main-IsCurrent :
      (action : Option String) (names : Dict String)
      → Keeps IsCurrent (process_main env action names)
  unfolding process_main
  process_main-IsCurrent none names = Keeps-pure tt
  process_main-IsCurrent (some action) names = one_config-IsCurrent "config" action names

  process_callbacks-IsCurrent :
      (affected : Dict String) → Keeps IsCurrent (process_callbacks env affected)
  unfolding process_callbacks
  process_callbacks-IsCurrent affected = Keeps-bind _ _ (Keeps-gets _) λ names.
      Keeps-then _ _ (process_main-IsCurrent _ names) (process_each-IsCurrent affected names)

  update_initialized-IsCurrent :
      (action config_name : String) (contents : Value) (trigger_callback : Bool)
      → Keeps IsCurrent (update_initialized env action config_name contents trigger_callback)
  unfolding update_initialized
  update_initialized-IsCurrent action config_name contents trigger_callback =
      Keeps-bind _ _ (update_store-IsCurrent action config_name contents) λ affected.
        Keeps-bind _ _ (Keeps-gets _) λ called.
          Keeps-then _ _ (Keeps-if _ _ _ (process_callbacks-IsCurrent affected) (Keeps-pure tt))
            (forget_names-IsCurrent action _)

-- Every update keeps the references of an agent's configurations current, whatever the action,
-- whatever the callbacks do, and also when it raises: the links that are recorded for a name are
-- those of its stored configuration, else of its default, and the referrers of a name are exactly
-- the configurations that link to it.
pub update_config-IsCurrent :
    (env : AgentEnv) (action config_name : String) (contents : Value) (trigger_callback : Bool)
    (s : AgentConfig)
    → IsCurrent s
    → IsCurrent (update_config env action config_name contents trigger_callback s).1
unfolding update_config ◌>>=◌
update_config-IsCurrent env action config_name contents trigger_callback s h =
    (Keeps-if s.initialized _ _
        (update_initialized-IsCurrent env action config_name contents trigger_callback)
        (Keeps-pure tt)).at
      s h
