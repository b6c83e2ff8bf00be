-- ===== src/Py/Text.antt =====
-- The methods of `str` that the program uses: `lower` (of ASCII letters), `strip`, and the removal
-- of a prefix.
use Prim.Native.Char.{Char, char, code, IsScalar}
use Prim.Native.Nat.{compare, Ordering}
use Prim.Native.String.{String, len, slice}
use text.Mathlib.TextEquality.{Char-path}
use volttron_core.Prelude.{
  ℕ, ◌+◌, ◌<◌, ◌≡◌, refl, Bool, ◌&&◌, [], ◌∷◌, arith, leb, if◌then◌else◌, contains, nat_eq, inl,
  inr, Bool-cases,
}

abbrev is_upper : ℕ → Bool
is_upper c = leb 65 c && leb c 90

unfoldable pub lower_code : ℕ → ℕ
lower_code c = if is_upper c then c + 32 else c

lower_code_idem : (c : ℕ) → lower_code (lower_code c) ≡ lower_code c
unfolding lower_code
lower_code_idem c = ground arith

scalar_of_small : (n : ℕ) → n < 1000 → IsScalar n
scalar_of_small n h = let e : compare n 55296 ≡ Ordering.lt = ground arith in rw e tt

lower_scalar : (c : ℕ) → IsScalar c → IsScalar (lower_code c)
unfolding lower_code
lower_scalar c s = elim (Bool-cases (is_upper c)) [
  | inl upper ↦ rw upper (scalar_of_small (c + 32) (ground arith))
  | inr other ↦ rw other s
]

unfoldable pub lower_char : Char → Char
unfolding lower_code lower_scalar scalar_of_small
lower_char (char c s) = char (lower_code c) (lower_scalar c s)

lower_char_idem : (c : Char) → lower_char (lower_char c) ≡ lower_char c
unfolding lower_char
lower_char_idem (char c s) = Char-path _ _ (lower_code_idem c)

-- s.lower()
unfoldable pub lower : String → String
unfolding lower_char
lower String.[] = String.[]
lower (String.◌∷◌ c s) = String.◌∷◌ (lower_char c) (lower s)

pub lower_idem : (s : String) → lower (lower s) ≡ lower s
unfolding lower
lower_idem String.[] = refl
lower_idem (String.◌∷◌ c s) = cc (lower_char_idem c, lower_idem s)

-- `string.whitespace`, backslash and slash
unfoldable pub is_border : Char → Bool
is_border c = contains (code c) (32 ∷ 9 ∷ 10 ∷ 13 ∷ 11 ∷ 12 ∷ 92 ∷ 47 ∷ [])

unfoldable pub lstrip : (Char → Bool) → String → String
lstrip border String.[] = String.[]
lstrip border (String.◌∷◌ c s) = if border c then lstrip border s else String.◌∷◌ c s

unfoldable pub rstrip : (Char → Bool) → String → String
rstrip border String.[] = String.[]
rstrip border (String.◌∷◌ c s) =
    let rest = rstrip border s in
    elim rest [
      | String.[] ↦ if border c then String.[] else String.◌∷◌ c String.[]
      | String.◌∷◌ d t ↦ String.◌∷◌ c (String.◌∷◌ d t)
    ]

-- s.strip(...)
unfoldable pub strip : (Char → Bool) → String → String
unfolding lstrip rstrip
strip border s = rstrip border (lstrip border s)

-- s.replace(prefix, "", 1) of a text that starts with the prefix
unfoldable pub remove_prefix : String → String → String
remove_prefix prefix s = slice s (len prefix) (len s)
