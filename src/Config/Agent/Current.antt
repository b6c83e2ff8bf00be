-- ===== src/Config/Agent/Current.antt =====
-- What holds of an agent's configurations between updates.
use text.Mathlib.TextEquality.{eq_iff}
use volttron_core.Prelude.{
  ℕ, zero, suc, String, ◌≡◌, refl, false, Option, none, some, List, [], ◌∷◌, arith, string_eq, ◌==◌,
  beq_refl,
}
use volttron_core.Py.Dict.{
  Dict, Each, lookup, get_or, insert, remove, get_or-insert, lookup-insert, lookup-remove,
}
use volttron_core.Py.Exec.{◌>>=◌}
use volttron_core.Py.Keeps.{Keeps, Keeps-bind, Keeps-if, Keeps-pure, Keeps-gets, Keeps-raise}
use volttron_core.Py.Result.{ok}
use volttron_core.Py.Text.{lower}
use volttron_core.Py.Value.{Value}
use volttron_core.Config.Links.{list_unique_links}
use volttron_core.Config.Agent.{AgentConfig, Step, delete_refs, update_refs}
use volttron_core.Config.Agent.Gather.{gather_referrers, gather_affected_within, gather_affected}
use volttron_core.Config.Agent.References.{IsIndexed, delete_refs-ok, update_refs-ok}
use volttron_core.Config.Agent.Local.{set_local}

-- The links of the configuration that is in effect: the stored one, else the default.
abbrev pub effective_links : Option Value → Option Value → Option (List String)
effective_links (some contents) default = some (list_unique_links contents)
effective_links none (some contents) = some (list_unique_links contents)
effective_links none none = none

-- The references are those of the configurations in effect, and the referrers agree with them.
pub record IsCurrent (s : AgentConfig) : Type 0 where
  pub indexed : IsIndexed s
  pub in_effect :
      (name : String)
      → lookup name s.ref_map ≡ effective_links (lookup name s.store) (lookup name s.default_store)
  pub defaults : Each (λ _. Unit {0}) s.default_store

-- The same but for one name, which has no stored configuration, and this default.
pub record IsCurrentBut (key : String) (default : Option Value) (s : AgentConfig) : Type 0 where
  pub indexed : IsIndexed s
  pub in_effect :
      (name : String)
      → (key == name) ≡ false
      → lookup name s.ref_map ≡ effective_links (lookup name s.store) (lookup name s.default_store)
  pub absent : lookup key s.store ≡ none
  pub default_is : lookup key s.default_store ≡ default
  pub defaults : Each (λ _. Unit {0}) s.default_store

-- Reading a `defaultdict` makes the entry.
abbrev touch : String → AgentConfig → AgentConfig
touch name s = record s {
  reverse_ref_map = insert name (get_or name s.reverse_ref_map []) s.reverse_ref_map;
}

touch-IsIndexed : (name : String) (s : AgentConfig) → IsIndexed s → IsIndexed (touch name s)
touch-IsIndexed name s h = record {
  distinct = h.distinct;
  exact = λ other ref. ground (
    arith,
    get_or-insert name ref (get_or name s.reverse_ref_map []) [] s.reverse_ref_map,
    h.exact other ref,
    eq_iff name ref,
  );
}

module _ {P : AgentConfig → Type 0}
    (touched : (name : String) (s : AgentConfig) → P s → P (touch name s)) where
  gather_referrers-Keeps :
      (visit : String → Dict String → Step (Dict String)) (refs : List String) (seen : Dict String)
      → ((name : String) (seen : Dict String) → Keeps P (visit name seen))
      → Keeps P (gather_referrers visit refs seen)
  unfolding gather_referrers
  gather_referrers-Keeps visit [] seen h = Keeps-pure seen
  gather_referrers-Keeps visit (ref ∷ refs) seen h =
      Keeps-if _ _ _ (gather_referrers-Keeps visit refs seen h)
        (Keeps-bind _ _ (h ref _) λ seen'. gather_referrers-Keeps visit refs seen' h)

  gather_within-Keeps :
      (n : ℕ) (name : String) (seen : Dict String) → Keeps P (gather_affected_within n name seen)
  unfolding gather_affected_within ◌>>=◌
  gather_within-Keeps zero name seen = Keeps-raise _
  gather_within-Keeps (suc n) name seen = record {
    at = λ s h.
        (gather_referrers-Keeps (gather_affected_within n) (get_or name s.reverse_ref_map []) seen
            (gather_within-Keeps n)).at
          _ (touched name s h);
  }

  gather_affected-Keeps : (name : String) (seen : Dict String) → Keeps P (gather_affected name seen)
  unfolding gather_affected
  gather_affected-Keeps name seen =
      Keeps-bind _ _ (Keeps-gets _) λ names. gather_within-Keeps _ name seen

pub gather_affected-IsCurrent :
    (name : String) (seen : Dict String) → Keeps IsCurrent (gather_affected name seen)
gather_affected-IsCurrent = gather_affected-Keeps λ name s h. record {
  indexed = touch-IsIndexed name s h.indexed;
  in_effect = h.in_effect;
  defaults = h.defaults;
}

pub gather_affected-IsCurrentBut :
    (key : String) (default : Option Value) (name : String) (seen : Dict String)
    → Keeps (IsCurrentBut key default) (gather_affected name seen)
gather_affected-IsCurrentBut key default = gather_affected-Keeps λ name s h. record {
  indexed = touch-IsIndexed name s h.indexed;
  in_effect = h.in_effect;
  absent = h.absent;
  default_is = h.default_is;
  defaults = h.defaults;
}

-- A configuration is stored.
pub set_local-IsCurrent :
    (action config_name : String) (contents : Value)
    → Keeps IsCurrent (set_local action config_name contents)
unfolding set_local ◌>>=◌
set_local-IsCurrent action config_name contents = record {
  at = λ s h.
      let key = lower config_name in
      let s₁ : AgentConfig = record s {
        store = insert key contents s.store;
        name_map = insert key config_name s.name_map;
      } in
      let (m, e, indexed) =
        update_refs-ok key contents s₁
          (record { distinct = h.indexed.distinct; exact = h.indexed.exact }) in
      rw e (
        (gather_affected-IsCurrent key _).at _ (record {
          indexed = indexed;
          in_effect = λ name. ground (
            arith,
            h.in_effect name,
            lookup-insert key name contents s.store,
            lookup-insert key name (list_unique_links contents) (remove key s.ref_map),
            lookup-remove key name s.ref_map,
            eq_iff key name,
          );
          defaults = h.defaults;
        }));
}

-- The stored configuration is taken out, and its references or those of the default come after.
abbrev pub without : String → AgentConfig → AgentConfig
without key s = record s { store = remove key s.store }

pub without-IsCurrentBut :
    (key : String) (s : AgentConfig)
    → IsCurrent s
    → IsCurrentBut key (lookup key s.default_store) (without key s)
without-IsCurrentBut key s h = record {
  indexed = record { distinct = h.indexed.distinct; exact = h.indexed.exact };
  in_effect = λ name other. ground (arith, h.in_effect name, lookup-remove key name s.store, other);
  absent = rw (lookup-remove key key s.store, beq_refl key) refl;
  default_is = refl;
  defaults = h.defaults;
}

pub delete_refs-IsCurrent :
    (key : String) (s : AgentConfig)
    → IsCurrentBut key none s
    → (t : AgentConfig) × (delete_refs key s ≡ (ok tt, t)) × IsCurrent t
delete_refs-IsCurrent key s h =
    let (m, e, indexed) = delete_refs-ok key s h.indexed in
    (
      _,
      e,
      record {
        indexed = indexed;
        in_effect = λ name. ground (
          arith,
          lookup-remove key name s.ref_map,
          h.in_effect name,
          h.absent,
          h.default_is,
          eq_iff key name,
        );
        defaults = h.defaults;
      },
    )

pub update_refs-IsCurrent :
    (key : String) (contents : Value) (s : AgentConfig)
    → IsCurrentBut key (some contents) s
    → (t : AgentConfig) × (update_refs key contents s ≡ (ok tt, t)) × IsCurrent t
update_refs-IsCurrent key contents s h =
    let (m, e, indexed) = update_refs-ok key contents s h.indexed in
    (
      _,
      e,
      record {
        indexed = indexed;
        in_effect = λ name. ground (
          arith,
          lookup-insert key name (list_unique_links contents) (remove key s.ref_map),
          lookup-remove key name s.ref_map,
          h.in_effect name,
          h.absent,
          h.default_is,
          eq_iff key name,
        );
        defaults = h.defaults;
      },
    )
