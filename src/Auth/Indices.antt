-- ===== src/Auth/Indices.antt =====
-- `AuthFile` of services/auth/auth_service.py: how entries are replaced and removed by their indices.
use volttron_core.Prelude.{
  ℕ, zero, suc, ◌-◌, Bool, true, false, not, Option, none, some, List, [], ◌∷◌, if◌then◌else◌, ltb,
  leb, length,
}
use volttron_core.Py.Result.{Result, ok, raised, auth_file_index_error, ◌>>=◌}
use volttron_core.Py.Value.{ℤ, pos, negsuc}
use volttron_core.Auth.Entry.{AuthEntry}

-- The place of an index in a list: a negative one counts from the end.
unfoldable pub place : ℤ → ℕ → Option ℕ
place (pos n) size = if ltb n size then some n else none
place (negsuc n) size = if ltb n size then some (size - suc n) else none

unfoldable pub replace_at : ℕ → AuthEntry → List AuthEntry → List AuthEntry
replace_at n entry [] = []
replace_at zero entry (e ∷ es) = entry ∷ es
replace_at (suc n) entry (e ∷ es) = e ∷ replace_at n entry es

unfoldable pub delete_at : ℕ → List AuthEntry → List AuthEntry
delete_at n [] = []
delete_at zero (e ∷ es) = es
delete_at (suc n) (e ∷ es) = e ∷ delete_at n es

-- entries[index] = auth_entry
unfoldable pub set_entry : ℤ → AuthEntry → List AuthEntry → Result (List AuthEntry)
unfolding place replace_at
set_entry index entry entries = elim (place index (length entries)) [
  | none ↦ raised auth_file_index_error
  | some n ↦ ok (replace_at n entry entries)
]

-- del entries[index]
unfoldable pub delete_entry : ℤ → List AuthEntry → Result (List AuthEntry)
unfolding place delete_at
delete_entry index entries = elim (place index (length entries)) [
  | none ↦ raised auth_file_index_error
  | some n ↦ ok (delete_at n entries)
]

-- b <= a
unfoldable pub at_most : ℤ → ℤ → Bool
at_most (pos m) (pos n) = leb m n
at_most (pos m) (negsuc n) = false
at_most (negsuc m) (pos n) = true
at_most (negsuc m) (negsuc n) = leb n m

unfoldable pub insert_descending : ℤ → List ℤ → List ℤ
unfolding at_most
insert_descending index [] = index ∷ []
insert_descending index (other ∷ indices) =
    let rest = insert_descending index indices in
    if not (at_most index other)
    then index ∷ other ∷ indices
    else if at_most other index
    then other ∷ indices
    else other ∷ rest

-- `indices = list(set(indices)); indices.sort(reverse=True)`
unfoldable pub descending : List ℤ → List ℤ
unfolding insert_descending
descending [] = []
descending (index ∷ indices) = insert_descending index (descending indices)

unfoldable pub delete_entries : List ℤ → List AuthEntry → Result (List AuthEntry)
unfolding delete_entry
delete_entries [] entries = ok entries
delete_entries (index ∷ indices) entries = do
  left ← delete_entry index entries
  delete_entries indices left
