-- ===== src/Config/Agent/Left.antt =====
-- How many names of a list are no keys of a dictionary: what bounds the calls that mark a name each.
use text.Mathlib.TextEquality.{eq_iff}
use volttron_core.Prelude.{
  ℕ, suc, ◌≤◌, ◌<◌, String, ◌≡◌, true, false, List, [], ◌∷◌, arith, length, contains, if◌then◌else◌,
  string_eq,
}
use volttron_core.Py.Dict.{Dict, has, insert, has-insert}

module _ {V : Type 0} where
  -- How many names are not marked.
  unfoldable pub left : List String → Dict V → ℕ
  left [] seen = 0
  left (x ∷ xs) seen = let rest = left xs seen in if has x seen then rest else suc rest

  pub left-le-length : (xs : List String) (seen : Dict V) → left xs seen ≤ length xs
  unfolding left
  left-le-length [] seen = omega arith
  left-le-length (x ∷ xs) seen = ground (arith, left-le-length xs seen)

  pub left-insert-le :
      (k : String) (v : V) (xs : List String) (seen : Dict V)
      → left xs (insert k v seen) ≤ left xs seen
  unfolding left
  left-insert-le k v [] seen = omega arith
  left-insert-le k v (x ∷ xs) seen =
      ground (arith, has-insert k x v seen, left-insert-le k v xs seen)

  pub left-insert-lt :
      (k : String) (v : V) (xs : List String) (seen : Dict V)
      → contains k xs ≡ true
      → has k seen ≡ false
      → left xs (insert k v seen) < left xs seen
  unfolding left contains
  left-insert-lt k v [] seen m n = cc
  left-insert-lt k v (x ∷ xs) seen m n = ground (
    arith,
    has-insert k x v seen,
    eq_iff x k,
    eq_iff k x,
    left-insert-le k v xs seen,
    left-insert-lt k v xs seen,
  )
