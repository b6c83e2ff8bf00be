-- ===== src/Auth/File.antt =====
-- `AuthFile` of services/auth/auth_service.py: the methods that read and write the file.
use volttron_core.Prelude.{
  ℕ, suc, String, Bool, true, false, Option, none, some, List, [], ◌∷◌, ◌++◌, ◌&&◌, ◌||◌, ◌==◌,
  if◌then◌else◌, string_eq,
}
use volttron_core.Py.Dict.{Dict}
use volttron_core.Py.Exec.{Exec, pure, raise, lift, modify, guard, ◌>>=◌, ◌>>◌}
use volttron_core.Py.Result.{Result, ok, raised, value_error, auth_entry_exists}
use volttron_core.Py.Value.{
  Value, int, list, dict, ℤ, pos, to_items, to_fields, of_fields, value_eq,
}
use volttron_core.Auth.Fields.{AuthEnv, text_of}
use volttron_core.Auth.Entry.{AuthEntry, vars}
use volttron_core.Auth.Reading.{Contents, read_at}
use volttron_core.Auth.Indices.{set_entry, descending, delete_entries}

-- What `_read` loads from the file ({} where that raises), and how often it was read.
pub record AuthFile : Type 0 where
  pub auth_data : Value
  pub readings : ℕ

abbrev pub FileAction {ℓ} : Type ℓ → Type ℓ
FileAction A = Exec AuthFile A

unfoldable pub read : AuthEnv → FileAction Contents
unfolding read_at
read env s = (read_at env s.readings s.auth_data, record s { readings = suc s.readings })

unfoldable pub version : Value
version = dict (to_fields (("major", int (pos 1)) ∷ ("minor", int (pos 3)) ∷ []))

unfoldable pub entry_values : List AuthEntry → List Value
unfolding vars
entry_values [] = []
entry_values (e ∷ es) = dict (to_fields (vars e)) ∷ entry_values es

-- the dictionary that `_write` dumps
unfoldable pub written : Contents → Value
unfolding entry_values version
written c = dict (
    to_fields (
      ("allow", list (to_items (entry_values c.allow)))
      ∷ ("deny", list (to_items (entry_values c.deny)))
      ∷ ("groups", c.groups)
      ∷ ("roles", c.roles)
      ∷ ("version", version)
      ∷ []))

unfoldable pub write : Contents → FileAction (Unit {0})
unfolding written
write c = modify λ s. record s { auth_data = written c }

unfoldable pub chosen : Bool → Contents → List AuthEntry
chosen is_allow c = if is_allow then c.allow else c.deny

unfoldable pub with_chosen : Bool → List AuthEntry → Contents → Contents
with_chosen is_allow entries c =
    if is_allow then record c { allow = entries } else record c { deny = entries }

unfoldable pub read_allow_entries : AuthEnv → FileAction (List AuthEntry)
unfolding read
read_allow_entries env = do c ← read env; pure c.allow

unfoldable pub read_deny_entries : AuthEnv → FileAction (List AuthEntry)
unfolding read
read_deny_entries env = do c ← read env; pure c.deny

unfoldable pub with_credentials : AuthEnv → String → List AuthEntry → List AuthEntry
unfolding text_of
with_credentials env credentials [] = []
with_credentials env credentials (e ∷ es) =
    let rest = with_credentials env credentials es in
    if text_of env e.credentials == credentials then e ∷ rest else rest

unfoldable pub find_by_credentials : AuthEnv → String → Bool → FileAction (List AuthEntry)
unfolding read_allow_entries read_deny_entries with_credentials
find_by_credentials env credentials is_allow = do
  entries ← if is_allow then read_allow_entries env else read_deny_entries env
  pure (with_credentials env credentials entries)

-- The entries take the same user id, or the same connections.
unfoldable pub is_taken : AuthEntry → AuthEntry → Bool
is_taken entry prev_entry =
    entry.user_id == prev_entry.user_id
    || (prev_entry.domain == entry.domain
        && (prev_entry.address == entry.address
            && (prev_entry.mechanism == entry.mechanism
                && prev_entry.credentials == entry.credentials)))

-- The index of the first entry that is taken.
unfoldable pub find_taken : AuthEntry → List AuthEntry → ℕ → Option ℕ
unfolding is_taken
find_taken entry [] index = none
find_taken entry (prev_entry ∷ entries) index =
    if is_taken entry prev_entry then some index else find_taken entry entries (suc index)

unfoldable pub refuse_taken : Option ℕ → FileAction (Unit {0})
refuse_taken none = pure tt
refuse_taken (some index) = raise (auth_entry_exists (index ∷ []))

unfoldable pub check_if_exists : AuthEnv → AuthEntry → Bool → FileAction (Unit {0})
unfolding read chosen find_taken refuse_taken
check_if_exists env entry is_allow = do
  c ← read env
  refuse_taken (find_taken entry (chosen is_allow c) 0)

unfoldable pub update_by_index : AuthEnv → AuthEntry → ℤ → Bool → FileAction (Unit {0})
unfolding read set_entry chosen with_chosen write
update_by_index env entry index is_allow = do
  c ← read env
  entries ← lift (set_entry index entry (chosen is_allow c))
  write (with_chosen is_allow entries c)

unfoldable pub update_by_indices : AuthEnv → AuthEntry → List ℕ → Bool → FileAction (Unit {0})
unfolding update_by_index
update_by_indices env entry [] is_allow = pure tt
update_by_indices env entry (index ∷ indices) is_allow = do
  update_by_index env entry (pos index) is_allow
  update_by_indices env entry indices is_allow

-- The branch of `add` for a new entry.
unfoldable pub append_entry : AuthEnv → AuthEntry → Bool → FileAction (Unit {0})
unfolding read chosen with_chosen write
append_entry env entry is_allow = do
  c ← read env
  write (with_chosen is_allow (chosen is_allow c ++ entry ∷ []) c)

-- The clauses of `add` after the check.
unfoldable pub after_check :
    AuthEnv → AuthEntry → Bool → Bool → Bool → Result (Unit {0}) → FileAction (Unit {0})
unfolding append_entry update_by_indices
after_check env entry overwrite no_error is_allow (ok _) = append_entry env entry is_allow
after_check env entry overwrite no_error is_allow (raised (auth_entry_exists indices)) =
    if overwrite
    then update_by_indices env entry indices is_allow
    else if no_error
    then pure tt
    else raise (auth_entry_exists indices)
after_check env entry overwrite no_error is_allow (raised why) = raise why

unfoldable pub add : AuthEnv → AuthEntry → Bool → Bool → Bool → FileAction (Unit {0})
unfolding check_if_exists after_check
add env entry overwrite no_error is_allow s =
    let (checked, after) = check_if_exists env entry is_allow s in
    after_check env entry overwrite no_error is_allow checked after

-- [e for e in entries if e.credentials != credentials]
unfoldable pub other_credentials : Value → List AuthEntry → List AuthEntry
other_credentials credentials [] = []
other_credentials credentials (e ∷ es) =
    let rest = other_credentials credentials es in
    if e.credentials == credentials then rest else e ∷ rest

unfoldable pub remove_by_credentials : AuthEnv → Value → Bool → FileAction (Unit {0})
unfolding read chosen with_chosen other_credentials write
remove_by_credentials env credentials is_allow = do
  c ← read env
  write (with_chosen is_allow (other_credentials credentials (chosen is_allow c)) c)

unfoldable pub remove_by_indices : AuthEnv → List ℤ → Bool → FileAction (Unit {0})
unfolding read descending delete_entries chosen with_chosen write
remove_by_indices env indices is_allow = do
  c ← read env
  entries ← lift (delete_entries (descending indices) (chosen is_allow c))
  write (with_chosen is_allow entries c)

unfoldable pub remove_by_index : AuthEnv → ℤ → Bool → FileAction (Unit {0})
unfolding remove_by_indices
remove_by_index env index is_allow = remove_by_indices env (index ∷ []) is_allow

unfoldable pub all_lists : Dict Value → Bool
all_lists [] = true
all_lists ((k, list _) ∷ d) = all_lists d
all_lists (_ ∷ d) = false

-- The two tests of `_set_groups_or_roles`.
unfoldable pub is_dict_of_lists : Value → Bool
unfolding all_lists
is_dict_of_lists (dict fields) = all_lists (of_fields fields)
is_dict_of_lists _ = false

unfoldable pub set_groups_or_roles : AuthEnv → Value → Bool → FileAction (Unit {0})
unfolding is_dict_of_lists read write
set_groups_or_roles env groups_or_roles is_group = do
  guard (is_dict_of_lists groups_or_roles) value_error
  c ← read env
  write (
      if is_group
      then record c { groups = groups_or_roles }
      else record c { roles = groups_or_roles })
