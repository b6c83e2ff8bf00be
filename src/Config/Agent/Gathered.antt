-- ===== src/Config/Agent/Gathered.antt =====
-- How deep `_gather_config` goes.
use volttron_core.Prelude.{
  ℕ, zero, suc, ◌+◌, ◌≤◌, ◌<◌, String, ◌≡◌, refl, false, Option, none, some, List, [], ◌∷◌, ◌++◌,
  arith, length, contains, contains-append, string_eq, Bool-cases, inl, inr,
}
use volttron_core.Py.Dict.{Dict, lookup, get_or, has, insert, keys, has-eq-false}
use volttron_core.Py.Result.{Result, ok, raised, ◌>>=◌}
use volttron_core.Py.Value.{
  Value, Items, Fields, null, bool, int, str, list, dict, nil, cons, end, field, is_null,
}
use volttron_core.Config.Links.{check_for_config_link}
use volttron_core.Config.Agent.{AgentConfig, Gathering, Gathered, Object, atom, object_of}
use volttron_core.Config.Agent.Left.{left, left-le-length, left-insert-lt, left-insert-le}
use volttron_core.Config.Agent.Gather.{
  Visit, contents_of, process_text, process_value, process_items, process_fields, process_links,
  gather_child_configs, gather_config,
}

module _ (ks : List String) where
  -- A result, and at most so many names are left.
  abbrev IsSafe {ℓ} : {A : Type ℓ} → ℕ → Result (A × Gathering) → Type 0
  IsSafe n (ok (a, gathered)) = left ks gathered ≤ n
  IsSafe n (raised e) = ⊥

  IsSafe-weaken {ℓ} :
      {A : Type ℓ} (m n : ℕ) (r : Result (A × Gathering)) → m ≤ n → IsSafe m r → IsSafe n r
  IsSafe-weaken m n (ok (a, gathered)) le h = omega (arith, le, h)
  IsSafe-weaken m n (raised e) le h = h

  IsSafe-bind {ℓ κ} :
      {A : Type ℓ} {B : Type κ} (n : ℕ) (r : Result (A × Gathering))
      (f : A × Gathering → Result (B × Gathering))
      → IsSafe n r
      → ((a : A) (gathered : Gathering)
          → left ks gathered ≤ n
          → IsSafe (left ks gathered) (f (a, gathered)))
      → IsSafe n (r >>= f)
  IsSafe-bind n (ok (a, gathered)) f h k = IsSafe-weaken (left ks gathered) n _ h (k a gathered h)
  IsSafe-bind n (raised e) f h k = h

  abbrev SafeVisit : ℕ → (String → Visit Object) → Type 0
  SafeVisit n child =
      (name : String) (gathered : Gathering)
      → left ks gathered < n
      → IsSafe (left ks gathered) (child name gathered)

  module _ (n : ℕ) (child : String → Visit Object) (safe : SafeVisit n child) where
    process_text-IsSafe :
        (text : String) (gathered : Gathering)
        → left ks gathered < n
        → IsSafe (left ks gathered) (process_text child text gathered)
    unfolding process_text
    process_text-IsSafe text gathered few = on_link (check_for_config_link text)
      where
        on_link :
            (link : Option String)
            → IsSafe (left ks gathered) (elim link [
              | none ↦ ok (atom (str text), gathered)
              | some name ↦ child name gathered
            ])
        on_link none = omega arith
        on_link (some name) = safe name gathered few

    mutual
      unfolding process_value process_items process_fields

      process_value-IsSafe :
          (v : Value) (gathered : Gathering)
          → left ks gathered < n
          → IsSafe (left ks gathered) (process_value child v gathered)
      process_value-IsSafe (str text) gathered few = process_text-IsSafe text gathered few
      process_value-IsSafe (list items) gathered few =
          IsSafe-bind _ (process_items child items gathered) _
            (process_items-IsSafe items gathered few) λ items' gathered' le. omega arith
      process_value-IsSafe (dict fields) gathered few =
          IsSafe-bind _ (process_fields child fields gathered) _
            (process_fields-IsSafe fields gathered few) λ fields' gathered' le. omega arith
      process_value-IsSafe null gathered few = omega arith
      process_value-IsSafe (bool b) gathered few = omega arith
      process_value-IsSafe (int i) gathered few = omega arith

      process_items-IsSafe :
          (items : Items) (gathered : Gathering)
          → left ks gathered < n
          → IsSafe (left ks gathered) (process_items child items gathered)
      process_items-IsSafe nil gathered few = omega arith
      process_items-IsSafe (cons v items) gathered few =
          IsSafe-bind _ (process_value child v gathered) _ (process_value-IsSafe v gathered few)
            λ v' gathered' le.
              IsSafe-bind _ (process_items child items gathered') _
                (process_items-IsSafe items gathered' (omega (arith, le, few)))
                λ items' gathered'' le'. omega arith

      process_fields-IsSafe :
          (fields : Fields) (gathered : Gathering)
          → left ks gathered < n
          → IsSafe (left ks gathered) (process_fields child fields gathered)
      process_fields-IsSafe end gathered few = omega arith
      process_fields-IsSafe (field k v fields) gathered few =
          IsSafe-bind _ (process_value child v gathered) _ (process_value-IsSafe v gathered few)
            λ v' gathered' le.
              IsSafe-bind _ (process_fields child fields gathered') _
                (process_fields-IsSafe fields gathered' (omega (arith, le, few)))
                λ fields' gathered'' le'. omega arith

    process_links-IsSafe :
        (v : Value) (gathered : Gathering)
        → left ks gathered < n
        → IsSafe (left ks gathered) (process_links child v gathered)
    unfolding process_links process_value
    process_links-IsSafe (str text) gathered few = omega arith
    process_links-IsSafe (list items) gathered few = process_value-IsSafe (list items) gathered few
    process_links-IsSafe (dict fields) gathered few =
        process_value-IsSafe (dict fields) gathered few
    process_links-IsSafe null gathered few = omega arith
    process_links-IsSafe (bool b) gathered few = omega arith
    process_links-IsSafe (int i) gathered few = omega arith

-- The names of the configurations that are there.
abbrev present : AgentConfig → List String
present s = keys s.store ++ keys s.default_store

has-keys : (name : String) (d : Dict Value) → contains name (keys d) ≡ has name d
unfolding keys has lookup contains
has-keys name [] = refl
has-keys name ((k, v) ∷ d) = ground (arith, has-keys name d)

contents_of-missing :
    (name : String) (s : AgentConfig)
    → contains name (present s) ≡ false
    → contents_of name s ≡ null
unfolding contents_of get_or has
contents_of-missing name s e = ground (
  arith,
  e,
  contains-append name (keys s.store) (keys s.default_store),
  has-keys name s.store,
  has-keys name s.default_store,
)

-- A configuration that is not there links to nothing.
process_links-null :
    (ks : List String) (child : String → Visit Object) (name : String) (v : Value)
    (gathered : Gathering)
    → v ≡ null
    → IsSafe ks (left ks gathered) (process_links child v (insert name none gathered))
unfolding process_links process_value
process_links-null ks child name v gathered e = rw e (left-insert-le name none ks gathered)

gather_child-IsSafe : (n : ℕ) (s : AgentConfig) → SafeVisit (present s) n (gather_child_configs n s)
unfolding gather_child_configs
gather_child-IsSafe zero s name gathered few = absurd (omega (arith, few))
gather_child-IsSafe (suc n) s name gathered few =
    visited (gather_child-IsSafe n s) (lookup name gathered) refl
  where
    child : Value → Gathering → Result (Object × Gathering)
    child = process_links (gather_child_configs n s)

    visited :
        SafeVisit (present s) n (gather_child_configs n s)
        → (old : Option (Option Object)) → lookup name gathered ≡ old
        → IsSafe (present s) (left (present s) gathered) (elim old [
          | some found ↦ ok (object_of name, gathered)
          | none ↦
              child (contents_of name s) (insert name none gathered) >>= λ (contents, gathered').
              ok (object_of name, insert name (some contents) gathered')
        ])
    visited safe (some found) e = omega arith
    visited safe none e = elim (Bool-cases (contains name (present s))) [
      | inl there ↦
          let less =
            left-insert-lt name none (present s) gathered there (has-eq-false name gathered e) in
          IsSafe-bind (present s) _ (child (contents_of name s) (insert name none gathered)) _
            (IsSafe-weaken (present s) _ _ _ (omega (arith, less)) (
              process_links-IsSafe (present s) n (gather_child_configs n s) safe
                (contents_of name s) (insert name none gathered) (omega (arith, less, few))))
            λ contents gathered' le. left-insert-le name (some contents) (present s) gathered'
      | inr missing ↦
          IsSafe-bind (present s) _ (child (contents_of name s) (insert name none gathered)) _
            (process_links-null (present s) (gather_child_configs n s) name (contents_of name s)
              gathered (contents_of-missing name s missing))
            λ contents gathered' le. left-insert-le name (some contents) (present s) gathered'
    ]

length-append : (xs ys : List String) → length (xs ++ ys) ≡ length xs + length ys
length-append [] ys = omega arith
length-append (x ∷ xs) ys = omega (arith, length-append xs ys)

length-keys : (d : Dict Value) → length (keys d) ≡ length d
unfolding keys
length-keys [] = refl
length-keys ((k, v) ∷ d) = omega (arith, length-keys d)

returned :
    (ks : List String) (n : ℕ) (r : Result Gathered) → IsSafe ks n r → (g : Gathered) × (r ≡ ok g)
returned ks n (ok g) h = (g, refl)
returned ks n (raised e) h = absurd h

-- `_gather_config` of a name that has contents ends with an object, whatever the configurations and
-- the links between them are, also where links go round in a circle.
pub gather_config_enough :
    (name : String) (s : AgentConfig)
    → is_null (contents_of name s) ≡ false
    → (g : Gathered) × (gather_config name s ≡ ok g)
unfolding gather_config
gather_config_enough name s there =
    let few : left (present s) [] < suc (suc (length s.store + length s.default_store)) = omega (
      arith,
      left-le-length (present s) [],
      length-append (keys s.store) (keys s.default_store),
      length-keys s.store,
      length-keys s.default_store,
    ) in
    rw there (returned (present s) _ _ (gather_child-IsSafe _ s name [] few))
