-- ===== src/Prelude/Lists.antt =====
-- Lists over the native numbers, and lists as Python's sets.
use Prim.Native.Nat.{ℕ, suc}
use mathlib.Core.Path.{◌≡◌, refl}
use mathlib.Core.Bool.{Bool, true, false, not, ◌&&◌, ◌||◌}
use mathlib.Core.List.{List, [], ◌∷◌, ◌++◌}
use native.Mathlib.Omega.{arith}
use mathlib.Core.Logic.{◌≢◌, inl, inr}
use volttron_core.Prelude.Tests.{Eq, ◌==◌, Bool-cases, if◌then◌else◌}

module _ {ℓ} {A : Type ℓ} where
  abbrev pub length : List A → ℕ
  length [] = 0
  length (x ∷ xs) = suc (length xs)

  abbrev pub is_empty : List A → Bool
  is_empty [] = true
  is_empty (x ∷ xs) = false

  abbrev pub All {κ} : (A → Type κ) → List A → Type κ
  All P [] = Unit
  All P (x ∷ xs) = P x × All P xs

  pub All-append_one {κ} :
      (P : A → Type κ) (xs : List A) (x : A) → All P xs → P x → All P (xs ++ x ∷ [])
  All-append_one P [] x all h = (h, tt)
  All-append_one P (y ∷ ys) x all h = (all.0, All-append_one P ys x all.1 h)

-- A set is the list of its members in the order in which they came.
module _ {ℓ} {A : Type ℓ} ⦃e : Eq A⦄ where
  unfoldable pub contains : A → List A → Bool
  contains a [] = false
  contains a (x ∷ xs) = x == a || contains a xs

  unfoldable pub discard : A → List A → List A
  discard a [] = []
  discard a (x ∷ xs) = let rest = discard a xs in if x == a then rest else x ∷ rest

  unfoldable pub add : A → List A → List A
  unfolding contains
  add a xs = if contains a xs then xs else xs ++ a ∷ []

  unfoldable pub union : List A → List A → List A
  unfolding add
  union xs [] = xs
  union xs (y ∷ ys) = union (add y xs) ys

  unfoldable pub count : A → List A → ℕ
  count a [] = 0
  count a (x ∷ xs) = let rest = count a xs in if x == a then suc rest else rest

  pub contains-append :
      (a : A) (xs ys : List A) → contains a (xs ++ ys) ≡ (contains a xs || contains a ys)
  unfolding contains
  contains-append a [] ys = refl
  contains-append a (x ∷ xs) ys = ground (arith, contains-append a xs ys)

  pub contains-discard :
      (a b : A) (xs : List A) → contains b (discard a xs) ≡ (not (a == b) && contains b xs)
  unfolding contains discard
  contains-discard a b [] = ground arith
  contains-discard a b (x ∷ xs) =
      ground (arith, contains-discard a b xs, e.beq_iff a b, e.beq_iff x a, e.beq_iff x b)

  pub contains-add : (a b : A) (xs : List A) → contains b (add a xs) ≡ (a == b || contains b xs)
  unfolding contains add
  contains-add a b xs = ground (arith, e.beq_iff a b, contains-append b xs (a ∷ []))

  pub contains-union :
      (a : A) (xs ys : List A) → contains a (union xs ys) ≡ (contains a xs || contains a ys)
  unfolding contains union
  contains-union a xs [] = ground arith
  contains-union a xs (y ∷ ys) = ground (arith, contains-union a (add y xs) ys, contains-add y a xs)

  pub count-append_one :
      (a x : A) (xs : List A)
      → count a (xs ++ x ∷ []) ≡ (if x == a then suc (count a xs) else count a xs)
  unfolding count
  count-append_one a x [] = ground arith
  count-append_one a x (y ∷ ys) = ground (arith, count-append_one a x ys)

  pub beq_ne : (a b : A) → a ≢ b → (a == b) ≡ false
  beq_ne a b h = elim (Bool-cases (a == b)) [
    | inl same ↦ absurd (h ((e.beq_iff a b).0 same))
    | inr other ↦ other
  ]

  pub beq_refl : (a : A) → (a == a) ≡ true
  beq_refl a = (e.beq_iff a a).1 refl

  -- No member is listed twice.
  abbrev pub Distinct : List A → Type 0
  Distinct [] = Unit
  Distinct (x ∷ xs) = (contains x xs ≡ false) × Distinct xs

  pub Distinct-discard : (a : A) (xs : List A) → Distinct xs → Distinct (discard a xs)
  unfolding discard
  Distinct-discard a [] h = tt
  Distinct-discard a (x ∷ xs) (new, h) = elim (Bool-cases (x == a)) [
    | inl same ↦ rw same (Distinct-discard a xs h)
    | inr other ↦ rw other (ground (arith, contains-discard a x xs, new), Distinct-discard a xs h)
  ]

  pub Distinct-append_one :
      (a : A) (xs : List A) → contains a xs ≡ false → Distinct xs → Distinct (xs ++ a ∷ [])
  unfolding contains
  Distinct-append_one a [] new h = (refl, tt)
  Distinct-append_one a (x ∷ xs) new (first, h) = (
    ground (arith, contains-append x xs (a ∷ []), e.beq_iff a x, e.beq_iff x a, first, new),
    Distinct-append_one a xs (ground arith) h,
  )

  pub Distinct-add : (a : A) (xs : List A) → Distinct xs → Distinct (add a xs)
  unfolding add
  Distinct-add a xs h = elim (Bool-cases (contains a xs)) [
    | inl old ↦ rw old h
    | inr new ↦ rw new (Distinct-append_one a xs new h)
  ]
