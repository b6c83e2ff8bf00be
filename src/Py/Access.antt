-- ===== src/Py/Access.antt =====
-- How the handlers read a message: items of dictionaries and of lists, and what is raised where
-- there is none. A key or a prefix that is no text raises `TypeError` here.
use Prim.Native.String.{String}
use volttron_core.Prelude.{ℕ, zero, suc, none, some, List, [], ◌∷◌}
use volttron_core.Py.Dict.{Dict, lookup}
use volttron_core.Py.Result.{
  Result, ok, raised, key_error, type_error, index_error, attribute_error, ◌>>=◌,
}
use volttron_core.Py.Value.{Value, Fields, str, list, dict, end, field, of_items, of_fields}

-- v["key"]
unfoldable pub get_item : Value → String → Result Value
get_item (dict fields) key = elim (lookup key (of_fields fields)) [
  | none ↦ raised key_error
  | some v ↦ ok v
]
get_item _ key = raised type_error

-- v.get("key", default)
unfoldable pub get_default : Value → String → Value → Result Value
get_default (dict fields) key default = elim (lookup key (of_fields fields)) [
  | none ↦ ok default
  | some v ↦ ok v
]
get_default _ key default = raised attribute_error

-- vs[n]
unfoldable pub nth : List Value → ℕ → Result Value
nth [] n = raised index_error
nth (v ∷ vs) zero = ok v
nth (v ∷ vs) (suc n) = nth vs n

-- vs[n] = w; out of range nothing changes, which no caller meets
unfoldable pub set : List Value → ℕ → Value → List Value
set [] n w = []
set (v ∷ vs) zero w = w ∷ vs
set (v ∷ vs) (suc n) w = v ∷ set vs n w

unfoldable pub as_text : Value → Result String
as_text (str s) = ok s
as_text _ = raised type_error

unfoldable pub as_texts : List Value → Result (List String)
unfolding as_text
as_texts [] = ok []
as_texts (v ∷ vs) = do s ← as_text v; rest ← as_texts vs; ok (s ∷ rest)

-- `x if isinstance(x, list) else [x]`
unfoldable pub one_or_many : Value → Result (List String)
unfolding as_texts
one_or_many (list vs) = as_texts (of_items vs)
one_or_many v = as_texts (v ∷ [])

-- v.items()
unfoldable pub items_of : Value → Result (Dict Value)
items_of (dict fields) = ok (of_fields fields)
items_of _ = raised attribute_error

characters : String → List String
characters String.[] = []
characters (String.◌∷◌ c s) = String.◌∷◌ c String.[] ∷ characters s

field_names : Fields → List String
field_names end = []
field_names (field k v fs) = k ∷ field_names fs

-- `for x in v`
unfoldable pub iterate : Value → Result (List String)
unfolding as_texts characters field_names
iterate (list vs) = as_texts (of_items vs)
iterate (dict fields) = ok (field_names fields)
iterate (str s) = ok (characters s)
iterate _ = raised type_error
