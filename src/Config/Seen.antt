-- ===== src/Config/Seen.antt =====
-- The names that `_follow_links` has seen, as sets, and how many it has not.
use mathlib.Core.Path.{subst}
use text.Mathlib.TextEquality.{eq_iff}
use volttron_core.Prelude.{
  ℕ, suc, ◌≤◌, ◌<◌, ◌≡◌, String, true, false, some, List, [], ◌∷◌, arith, length, contains, All,
  beq_refl, Bool-cases, inl, inr, ◌==◌, string_eq, if◌then◌else◌,
}
use volttron_core.Py.Dict.{Dict, lookup}
use volttron_core.Py.Value.{Value}
use volttron_core.Config.Links.{minus}

abbrev pub Grown : List String → List String → Type 0
Grown S S' = (m : String) → contains m S ≡ true → contains m S' ≡ true

pub All-contains :
    (P : String → Type 0) (xs : List String) (c : String) → All P xs → contains c xs ≡ true → P c
unfolding contains
All-contains P [] c all h = cc
All-contains P (x ∷ xs) c all h = elim (Bool-cases (x == c)) [
  | inl same ↦ subst P ((eq_iff x c).0 same) all.0
  | inr other ↦ All-contains P xs c all.1 (ground arith)
]

pub All-minus :
    (P : String → Type 0) (xs seen : List String)
    → ((c : String) → contains c xs ≡ true → contains c seen ≡ false → P c)
    → All P (minus xs seen)
unfolding minus contains
All-minus P [] seen h = tt
All-minus P (x ∷ xs) seen h =
    let rest = All-minus P xs seen (λ c m n. h c (ground arith) n) in
    elim (Bool-cases (contains x seen)) [
      | inl old ↦ rw old rest
      | inr new ↦ rw new (h x (ground (arith, beq_refl x)) new, rest)
    ]

pub contains-minus :
    (c : String) (xs seen : List String)
    → contains c xs ≡ true
    → contains c seen ≡ false
    → contains c (minus xs seen) ≡ true
unfolding minus contains
contains-minus c [] seen h n = h
contains-minus c (x ∷ xs) seen h n = ground (arith, contains-minus c xs seen, eq_iff x c)

pub differs :
    (c d : String) (xs : List String)
    → contains c xs ≡ true
    → contains d xs ≡ false
    → (c == d) ≡ false
differs c d xs m n = elim (Bool-cases (c == d)) [
  | inl same ↦ let e = subst (λ x. contains x xs ≡ true) ((eq_iff c d).0 same) m in cc
  | inr other ↦ other
]

-- How many names of the dictionary have not been seen.
unfoldable pub unseen : Dict Value → List String → ℕ
unseen [] seen = 0
unseen ((k, v) ∷ d) seen = let rest = unseen d seen in if contains k seen then rest else suc rest

pub unseen-le-length : (d : Dict Value) (S : List String) → unseen d S ≤ length d
unfolding unseen
unseen-le-length [] S = omega arith
unseen-le-length ((k, v) ∷ d) S = ground (arith, unseen-le-length d S)

pub unseen-le : (d : Dict Value) (S S' : List String) → Grown S S' → unseen d S' ≤ unseen d S
unfolding unseen
unseen-le [] S S' g = omega arith
unseen-le ((k, v) ∷ d) S S' g = ground (arith, g k, unseen-le d S S' g)

pub unseen-lt :
    (d : Dict Value) (S S' : List String) (c : String) (v : Value)
    → Grown S S'
    → lookup c d ≡ some v
    → contains c S ≡ false
    → contains c S' ≡ true
    → unseen d S' < unseen d S
unfolding unseen lookup
unseen-lt [] S S' c v g e n m = cc
unseen-lt ((k, w) ∷ d) S S' c v g e n m =
    ground (arith, g k, eq_iff k c, unseen-le d S S' g, unseen-lt d S S' c v g)
