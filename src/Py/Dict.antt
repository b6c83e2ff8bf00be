-- ===== src/Py/Dict.antt =====
-- Python's `dict` with text keys, as the list of its items in the order of insertion: an
-- assignment to a key that is there keeps its place. A `defaultdict` is read by `get_or`.
pub mod Traverse
use text.Mathlib.TextEquality.{eq_iff}
use volttron_core.Prelude.{
  String, ◌≡◌, refl, Bool, true, false, Option, none, some, List, [], ◌∷◌, arith, ◌==◌, string_eq,
  if◌then◌else◌, not, ◌&&◌, ◌||◌,
}

abbrev pub Dict {ℓ} : Type ℓ → Type ℓ
Dict V = List (String × V)

module _ {ℓ} {V : Type ℓ} where
  -- d.get(k)
  unfoldable pub lookup : String → Dict V → Option V
  lookup k [] = none
  lookup k ((j, v) ∷ d) = if j == k then some v else lookup k d

  abbrev pub or_else : Option V → V → V
  or_else none default = default
  or_else (some v) default = v

  -- d.get(k, default)
  unfoldable pub get_or : String → Dict V → V → V
  unfolding lookup
  get_or k d default = or_else (lookup k d) default

  -- k in d
  unfoldable pub has : String → Dict V → Bool
  unfolding lookup
  has k d = elim (lookup k d) [ none ↦ false | some v ↦ true ]

  -- d[k] = v
  unfoldable pub insert : String → V → Dict V → Dict V
  insert k v [] = (k, v) ∷ []
  insert k v ((j, w) ∷ d) = if j == k then (j, v) ∷ d else (j, w) ∷ insert k v d

  -- d.pop(k, None)
  unfoldable pub remove : String → Dict V → Dict V
  remove k [] = []
  remove k ((j, v) ∷ d) = let rest = remove k d in if j == k then rest else (j, v) ∷ rest

  -- d.keys()
  unfoldable pub keys : Dict V → List String
  keys [] = []
  keys ((k, v) ∷ d) = k ∷ keys d

  -- d[k] = f(d[k]) in a `defaultdict`
  unfoldable pub update : String → V → (V → V) → Dict V → Dict V
  unfolding get_or insert
  update k default f d = insert k (f (get_or k d default)) d

  pub lookup-insert :
      (k j : String) (v : V) (d : Dict V)
      → lookup j (insert k v d) ≡ (if k == j then some v else lookup j d)
  unfolding lookup insert
  lookup-insert k j v [] = refl
  lookup-insert k j v ((i, w) ∷ d) =
      ground (arith, eq_iff k j, eq_iff i k, eq_iff i j, lookup-insert k j v d)

  pub lookup-remove :
      (k j : String) (d : Dict V) → lookup j (remove k d) ≡ (if k == j then none else lookup j d)
  unfolding lookup remove
  lookup-remove k j [] = ground arith
  lookup-remove k j ((i, w) ∷ d) =
      ground (arith, eq_iff k j, eq_iff i k, eq_iff i j, lookup-remove k j d)

  pub has-insert : (k j : String) (v : V) (d : Dict V) → has j (insert k v d) ≡ (k == j || has j d)
  unfolding has
  has-insert k j v d = ground (arith, lookup-insert k j v d)

  pub has-remove : (k j : String) (d : Dict V) → has j (remove k d) ≡ (not (k == j) && has j d)
  unfolding has
  has-remove k j d = ground (arith, lookup-remove k j d)

  pub has-eq-false : (k : String) (d : Dict V) → lookup k d ≡ none → has k d ≡ false
  unfolding has
  has-eq-false k d e = ground arith

  pub lookup-eq-none : (k : String) (d : Dict V) → has k d ≡ false → lookup k d ≡ none
  unfolding has
  lookup-eq-none k d e = ground arith

  pub get_or-eq :
      (k : String) (default v : V) (d : Dict V) → lookup k d ≡ some v → get_or k d default ≡ v
  unfolding get_or
  get_or-eq k default v d e = ground arith

  pub get_or-missing :
      (k : String) (default : V) (d : Dict V) → lookup k d ≡ none → get_or k d default ≡ default
  unfolding get_or
  get_or-missing k default d e = ground arith

  pub get_or-insert :
      (k j : String) (v default : V) (d : Dict V)
      → get_or j (insert k v d) default ≡ (if k == j then v else get_or j d default)
  unfolding get_or
  get_or-insert k j v default d = ground (arith, lookup-insert k j v d)

  pub get_or-remove :
      (k j : String) (default : V) (d : Dict V)
      → get_or j (remove k d) default ≡ (if k == j then default else get_or j d default)
  unfolding get_or
  get_or-remove k j default d = ground (arith, lookup-remove k j d)

  pub get_or-update :
      (k j : String) (default : V) (f : V → V) (d : Dict V)
      → get_or j (update k default f d) default
        ≡ (if k == j then f (get_or k d default) else get_or j d default)
  unfolding update
  get_or-update k j default f d = get_or-insert k j (f (get_or k d default)) default d

-- Every value has the property, and no key comes twice.
abbrev pub Each {ℓ κ} : {V : Type ℓ} → (V → Type κ) → Dict V → Type κ
Each P [] = Unit
Each P ((k, v) ∷ d) = (has k d ≡ false) × P v × Each P d

module _ {ℓ κ} {V : Type ℓ} (P : V → Type κ) where
  pub Each-insert : (k : String) (v : V) (d : Dict V) → P v → Each P d → Each P (insert k v d)
  unfolding insert has
  Each-insert k v [] p h = (refl, p, tt)
  Each-insert k v ((j, w) ∷ d) p h =
      ground (arith, Each-insert k v d p h.2, has-insert k j v d, eq_iff k j, eq_iff j k)

  pub Each-remove : (k : String) (d : Dict V) → Each P d → Each P (remove k d)
  unfolding remove has
  Each-remove k [] h = tt
  Each-remove k ((j, w) ∷ d) h = ground (arith, Each-remove k d h.2, has-remove k j d)

  pub Each-lookup : (k : String) (v : V) (d : Dict V) → Each P d → lookup k d ≡ some v → P v
  unfolding lookup
  Each-lookup k v [] h e = cc
  Each-lookup k v ((j, w) ∷ d) h e = ground (arith, Each-lookup k v d h.2)

  pub Each-get_or :
      (k : String) (d : Dict V) (default : V) → P default → Each P d → P (get_or k d default)
  unfolding get_or lookup
  Each-get_or k [] default p h = p
  Each-get_or k ((j, w) ∷ d) default p h = ground (arith, Each-get_or k d default p h.2)

  pub Each-update :
      (k : String) (default : V) (f : V → V) (d : Dict V)
      → P (f (get_or k d default))
      → Each P d
      → Each P (update k default f d)
  unfolding update
  Each-update k default f d p h = Each-insert k (f (get_or k d default)) d p h

module _ {ℓ κ μ} {V : Type ℓ} (C : V → Type κ) (P : V → Type μ) where
  pub Each-pointwise :
      (d : Dict V) → Each C d → ((k : String) (v : V) → lookup k d ≡ some v → P v) → Each P d
  unfolding lookup has
  Each-pointwise [] h all = tt
  Each-pointwise ((k, v) ∷ d) h all = (
    h.0,
    all k v (ground (arith, eq_iff k k)),
    Each-pointwise d h.2 (λ j w e. all j w (ground (arith, eq_iff k j))),
  )
