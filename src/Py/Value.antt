-- ===== src/Py/Value.antt =====
-- The values of a message: what `jsonapi.loads` returns, but for floating-point numbers.
use volttron_core.Prelude.{
  ℕ, zero, String, ◌≡◌, ◌↔◌, Bool, true, false, not, refl, ap, List, [], ◌∷◌, Eq, arith, ◌==◌,
  string_eq, nat_eq,
}
use mathlib.Core.Bool.{◌&&◌}
use mathlib.Core.Path.{ap₂}
use text.Mathlib.TextPositions.{eq_refl}
use text.Mathlib.TextEquality.{eq_iff}
use volttron_core.Py.Dict.{Dict}

-- `negsuc n` is -(n + 1).
pub data ℤ : Type 0 where
  pos : ℕ → ℤ
  negsuc : ℕ → ℤ

mutual
  pub data Value : Type 0 where
    null : Value
    bool : Bool → Value
    int : ℤ → Value
    str : String → Value
    list : Items → Value
    dict : Fields → Value

  pub data Items : Type 0 where
    nil : Items
    cons : Value → Items → Items

  pub data Fields : Type 0 where
    end : Fields
    field : String → Value → Fields → Fields

abbrev pub to_items : List Value → Items
to_items [] = nil
to_items (v ∷ vs) = cons v (to_items vs)

abbrev pub of_items : Items → List Value
of_items nil = []
of_items (cons v vs) = v ∷ of_items vs

abbrev pub to_fields : Dict Value → Fields
to_fields [] = end
to_fields ((k, v) ∷ d) = field k v (to_fields d)

abbrev pub of_fields : Fields → Dict Value
of_fields end = []
of_fields (field k v fs) = (k, v) ∷ of_fields fs

and_parts : (a b : Bool) → (a && b) ≡ true → (a ≡ true) × (b ≡ true)
and_parts true true h = (refl, refl)
and_parts true false h = cc
and_parts false b h = cc

-- bool(v)
unfoldable pub truthy : Value → Bool
truthy null = false
truthy (bool b) = b
truthy (int (pos zero)) = false
truthy (int _) = true
truthy (str s) = not (s == "")
truthy (list nil) = false
truthy (list (cons v vs)) = true
truthy (dict end) = false
truthy (dict (field k v fs)) = true

unfoldable pub is_null : Value → Bool
is_null null = true
is_null _ = false

abbrev mutual
  pub value_beq : Value → Value → Bool
  value_beq null null = true
  value_beq (bool true) (bool true) = true
  value_beq (bool false) (bool false) = true
  value_beq (int (pos m)) (int (pos n)) = m == n
  value_beq (int (negsuc m)) (int (negsuc n)) = m == n
  value_beq (str s) (str t) = s == t
  value_beq (list xs) (list ys) = items_beq xs ys
  value_beq (dict xs) (dict ys) = fields_beq xs ys
  value_beq _ _ = false

  pub items_beq : Items → Items → Bool
  items_beq nil nil = true
  items_beq (cons x xs) (cons y ys) = value_beq x y && items_beq xs ys
  items_beq _ _ = false

  pub fields_beq : Fields → Fields → Bool
  fields_beq end end = true
  fields_beq (field j x xs) (field k y ys) = j == k && (value_beq x y && fields_beq xs ys)
  fields_beq _ _ = false

mutual
  value_sound : (v w : Value) → value_beq v w ≡ true → v ≡ w
  value_sound null null h = refl
  value_sound (bool true) (bool true) h = refl
  value_sound (bool false) (bool false) h = refl
  value_sound (int (pos m)) (int (pos n)) h = ground arith
  value_sound (int (negsuc m)) (int (negsuc n)) h = ground arith
  value_sound (str s) (str t) h = ap str ((eq_iff s t).0 h)
  value_sound (list xs) (list ys) h = ap list (items_sound xs ys h)
  value_sound (dict xs) (dict ys) h = ap dict (fields_sound xs ys h)
  value_sound _ _ h = cc

  items_sound : (xs ys : Items) → items_beq xs ys ≡ true → xs ≡ ys
  items_sound nil nil h = refl
  items_sound (cons x xs) (cons y ys) h =
      let (p, q) = and_parts (value_beq x y) (items_beq xs ys) h in
      ap₂ cons (value_sound x y p) (items_sound xs ys q)
  items_sound _ _ h = cc

  fields_sound : (xs ys : Fields) → fields_beq xs ys ≡ true → xs ≡ ys
  fields_sound end end h = refl
  fields_sound (field j x xs) (field k y ys) h =
      let (p, q) = and_parts (j == k) (value_beq x y && fields_beq xs ys) h in
      let (q, r) = and_parts (value_beq x y) (fields_beq xs ys) q in
      cc ((eq_iff j k).0 p, value_sound x y q, fields_sound xs ys r)
  fields_sound _ _ h = cc

mutual
  value_refl : (v : Value) → value_beq v v ≡ true
  value_refl null = refl
  value_refl (bool true) = refl
  value_refl (bool false) = refl
  value_refl (int (pos m)) = ground arith
  value_refl (int (negsuc m)) = ground arith
  value_refl (str s) = eq_refl s
  value_refl (list xs) = items_refl xs
  value_refl (dict xs) = fields_refl xs

  items_refl : (xs : Items) → items_beq xs xs ≡ true
  items_refl nil = refl
  items_refl (cons x xs) = rw (value_refl x) (items_refl xs)

  fields_refl : (xs : Fields) → fields_beq xs xs ≡ true
  fields_refl end = refl
  fields_refl (field k x xs) = rw (eq_refl k, value_refl x) (fields_refl xs)

pub value_beq_iff : (v w : Value) → (value_beq v w ≡ true) ↔ (v ≡ w)
value_beq_iff v w = (value_sound v w, λ e. rw (← e) (value_refl v))

instance abbrev pub value_eq : Eq Value
value_eq = record { beq = value_beq; beq_iff = value_beq_iff }

-- v == "text"
abbrev pub is_text : Value → String → Bool
is_text (str s) t = s == t
is_text _ t = false
