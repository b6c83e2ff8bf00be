-- ===== src/Auth/Reading.antt =====
-- `AuthFile.read` of services/auth/auth_service.py: the entries of the file, with what groups and
-- roles give to them.
use Prim.Native.String.{◌++◌ as append}
use volttron_core.Prelude.{
  ℕ, suc, String, Bool, true, false, List, [], ◌∷◌, ◌++◌, if◌then◌else◌, union, length,
}
use volttron_core.Py.Access.{get_default}
use volttron_core.Py.Dict.{get_or}
use volttron_core.Py.Result.{
  Result, ok, raised, type_error, attribute_error, auth_entry_invalid, ◌>>=◌,
}
use volttron_core.Py.Value.{
  Value, str, list, dict, nil, end, to_items, of_items, of_fields, value_eq,
}
use volttron_core.Auth.Fields.{AuthEnv, elements}
use volttron_core.Auth.Entry.{AuthEntry, new_entry, add_capabilities}

-- What `read` returns.
pub record Contents : Type 0 where
  pub allow : List AuthEntry
  pub deny : List AuthEntry
  pub groups : Value
  pub roles : Value

-- `AuthEntry(**file_entry)`
unfoldable pub entry_of : AuthEnv → String → Value → Result AuthEntry
unfolding new_entry
entry_of env fresh (dict fields) = new_entry env fresh (of_fields fields)
entry_of env fresh _ = raised type_error

-- The clauses after `try`: an invalid entry is left out.
unfoldable pub keep_entry : Result AuthEntry → List AuthEntry → Result (List AuthEntry)
keep_entry (ok entry) rest = ok (entry ∷ rest)
keep_entry (raised type_error) rest = ok rest
keep_entry (raised auth_entry_invalid) rest = ok rest
keep_entry (raised why) rest = raised why

-- The loop of `_get_entries` over one list.
unfoldable pub get_entries : AuthEnv → ℕ → ℕ → List Value → Result (List AuthEntry)
unfolding entry_of keep_entry
get_entries env reading index [] = ok []
get_entries env reading index (v ∷ vs) = do
  rest ← get_entries env reading (suc index) vs
  keep_entry (entry_of env (env.uuid reading index) v) rest

-- d.get(key, [])
unfoldable pub get_list : Value → Value → Result Value
unfolding get_or
get_list (dict fields) (str key) = ok (get_or key (of_fields fields) (list nil))
get_list (dict fields) (list _) = raised type_error
get_list (dict fields) (dict _) = raised type_error
get_list (dict fields) _ = ok (list nil)
get_list _ _ = raised attribute_error

-- v += w
unfoldable pub extend : Value → Value → Result Value
unfolding elements
extend (list vs) w = do ws ← elements w; ok (list (to_items (of_items vs ++ ws)))
extend (str s) (str t) = ok (str (append s t))
extend _ _ = raised type_error

unfoldable pub gather_roles : Value → List Value → Value → Result Value
unfolding get_list extend
gather_roles groups [] entry_roles = ok entry_roles
gather_roles groups (group ∷ more) entry_roles = do
  found ← get_list groups group
  extended ← extend entry_roles found
  gather_roles groups more extended

unfoldable pub role_capabilities : Value → List Value → Value → Result Value
unfolding get_list extend
role_capabilities roles [] capabilities = ok capabilities
role_capabilities roles (role ∷ more) capabilities = do
  found ← get_list roles role
  extended ← extend capabilities found
  role_capabilities roles more extended

unfoldable pub is_hashable : Value → Bool
is_hashable (list _) = false
is_hashable (dict _) = false
is_hashable _ = true

-- list(set(values))
unfoldable pub as_set : List Value → Result (List Value)
unfolding is_hashable union
as_set [] = ok []
as_set (v ∷ vs) =
    if is_hashable v then (do rest ← as_set vs; ok (union (v ∷ []) rest)) else raised type_error

-- `entry_roles` is the list of the entry itself, but for a text, which `+=` does not change.
unfoldable pub roles_after : Value → Value → Value
roles_after (list _) extended = extended
roles_after old extended = old

unfoldable pub use_groups_and_roles_of : Value → Value → AuthEntry → Result AuthEntry
unfolding elements gather_roles role_capabilities as_set roles_after add_capabilities
use_groups_and_roles_of groups roles e = do
  entry_groups ← elements e.groups
  entry_roles ← gather_roles groups entry_groups e.roles
  role_names ← elements entry_roles
  found ← role_capabilities roles role_names (list nil)
  capabilities ← elements found
  distinct ← as_set capabilities
  add_capabilities distinct (record e { roles = roles_after e.roles entry_roles })

-- _use_groups_and_roles
unfoldable pub use_groups_and_roles : Value → Value → List AuthEntry → Result (List AuthEntry)
unfolding use_groups_and_roles_of
use_groups_and_roles groups roles [] = ok []
use_groups_and_roles groups roles (e ∷ es) = do
  used ← use_groups_and_roles_of groups roles e
  rest ← use_groups_and_roles groups roles es
  ok (used ∷ rest)

-- What `read` makes of the lists of the file: _get_entries and _use_groups_and_roles.
unfoldable pub file_contents : AuthEnv → ℕ → Value → Value → Value → Value → Result Contents
unfolding elements get_entries use_groups_and_roles
file_contents env reading groups roles allow_list deny_list = do
  allow_values ← elements allow_list
  allow_entries ← get_entries env reading 0 allow_values
  deny_values ← elements deny_list
  deny_entries ← get_entries env reading (length allow_values) deny_values
  allow ← use_groups_and_roles groups roles allow_entries
  ok (record { allow = allow; deny = deny_entries; groups = groups; roles = roles })

-- `read`, with the number of the reading and what `_read` has loaded from the file
unfoldable pub read_at : AuthEnv → ℕ → Value → Result Contents
unfolding get_default file_contents
read_at env reading auth_data = do
  allow_list ← get_default auth_data "allow" (list nil)
  deny_list ← get_default auth_data "deny" (list nil)
  groups ← get_default auth_data "groups" (dict end)
  roles ← get_default auth_data "roles" (dict end)
  file_contents env reading groups roles allow_list deny_list
