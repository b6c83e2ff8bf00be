-- ===== src/Auth/RolesKept.antt =====
-- `AuthFile.set_roles` of services/auth/auth_service.py on a file without groups.
use volttron_core.Prelude.{ℕ, suc, String, ◌≡◌, refl, false, List, [], ◌∷◌, All, length}
use volttron_core.Py.Access.{get_default}
use volttron_core.Py.Exec.{guard, modify, ◌>>=◌}
use volttron_core.Py.Result.{ok, Yields, Yields-ok, Yields-bind}
use volttron_core.Py.Value.{Value, list, dict, nil, end, of_fields}
use volttron_core.Auth.Fields.{AuthEnv, elements, update_all, gather_capabilities}
use volttron_core.Auth.Entry.{AuthEntry, add_capabilities}
use volttron_core.Auth.Entries.{new_entry-IsListField}
use volttron_core.Auth.Reading.{
  Contents, entry_of, get_entries, gather_roles, role_capabilities, as_set, roles_after,
  use_groups_and_roles, use_groups_and_roles_of, file_contents, read_at,
}
use volttron_core.Auth.ReadBack.{IsWhole, IsBuilt-Steady, entry_of-IsBuilt, get_entries_parts}
use volttron_core.Auth.Rereading.{read_at-written}
use volttron_core.Auth.Roles.{use_no_roles, roles_after-same}
use volttron_core.Auth.File.{
  AuthFile, read, write, set_groups_or_roles, is_dict_of_lists, all_lists,
}

abbrev HasNoGroups : AuthEntry → Type 0
HasNoGroups e = e.groups ≡ list nil

module _ (env : AuthEnv) where
  entry_of-IsWhole :
      (fresh : String) (v : Value) (e : AuthEntry) → entry_of env fresh v ≡ ok e → IsWhole env e
  unfolding entry_of
  entry_of-IsWhole fresh (dict fields) e h = (
    entry_of-IsBuilt env fresh (dict fields) e h,
    new_entry-IsListField env fresh (of_fields fields) e h,
  )
  entry_of-IsWhole fresh _ e h = cc

  get_entries-IsWhole :
      (n i : ℕ) (vs : List Value) (es : List AuthEntry)
      → get_entries env n i vs ≡ ok es
      → All (IsWhole env) es
  unfolding get_entries
  get_entries-IsWhole n i [] es h = let same : [] ≡ es = cc in rw (← same) tt
  get_entries-IsWhole n i (v ∷ vs) es h =
      get_entries_parts env (All (IsWhole env)) (All (IsWhole env)) n i v vs es h
        (get_entries-IsWhole n (suc i) vs)
        (λ rest e all made. (entry_of-IsWhole (env.uuid n i) v e made, all)) (λ rest all. all)

  -- The roles of an entry without groups are those that it had.
  same_roles :
      (groups : Value) (e : AuthEntry) (gs : List Value) (entry_roles : Value)
      → elements e.groups ≡ ok gs
      → gather_roles groups gs e.roles ≡ ok entry_roles
      → HasNoGroups e
      → e.roles ≡ entry_roles
  unfolding elements gather_roles
  same_roles groups e gs entry_roles listed gathered none =
      let no_groups : [] ≡ gs = cc (rw none at listed) in
      let h : ok e.roles ≡ ok entry_roles = rw (← no_groups) at gathered in cc

  add_capabilities-IsWhole :
      (cs : List Value) (e : AuthEntry) (roles : Value)
      → IsWhole env e
      → (HasNoGroups e → e.roles ≡ roles)
      → Yields
          (λ after. HasNoGroups after → IsWhole env after)
          (add_capabilities cs (record e { roles = roles_after e.roles roles }))
  unfolding add_capabilities
  add_capabilities-IsWhole cs e roles (built, listed) same =
      Yields-bind (gather_capabilities cs []) _ λ temp _. Yields-ok _ λ none. (
        IsBuilt-Steady env e (roles_after e.roles roles) (update_all e.capabilities temp) built,
        rw (← same none, roles_after-same env e.roles) listed,
      )

  use_groups_and_roles_of-IsWhole :
      (groups roles : Value) (e : AuthEntry)
      → IsWhole env e
      → Yields
          (λ after. HasNoGroups after → IsWhole env after)
          (use_groups_and_roles_of groups roles e)
  unfolding use_groups_and_roles_of
  use_groups_and_roles_of-IsWhole groups roles e whole =
      Yields-bind (elements e.groups) _ λ gs listed.
        Yields-bind (gather_roles groups gs e.roles) _ λ entry_roles gathered.
          Yields-bind (elements entry_roles) _ λ names _.
            Yields-bind (role_capabilities roles names (list nil)) _ λ found _.
              Yields-bind (elements found) _ λ cs _. Yields-bind (as_set cs) _ λ distinct _.
                add_capabilities-IsWhole distinct e entry_roles whole
                  (same_roles groups e gs entry_roles listed gathered)

  use_groups_and_roles-IsWhole :
      (groups roles : Value) (es : List AuthEntry)
      → All (IsWhole env) es
      → Yields
          (λ after. All HasNoGroups after → All (IsWhole env) after)
          (use_groups_and_roles groups roles es)
  unfolding use_groups_and_roles
  use_groups_and_roles-IsWhole groups roles [] w = Yields-ok [] (λ none. tt)
  use_groups_and_roles-IsWhole groups roles (e ∷ es) (whole, w) =
      let first = use_groups_and_roles_of-IsWhole groups roles e whole in
      let more = use_groups_and_roles-IsWhole groups roles es w in
      Yields-bind (use_groups_and_roles_of groups roles e) _ λ used u.
        Yields-bind (use_groups_and_roles groups roles es) _ λ rest r.
          Yields-ok (used ∷ rest)
            (λ (no_group, none). (first.value used u no_group, more.value rest r none))

  file_contents-IsWhole :
      (n : ℕ) (groups roles allow_list deny_list : Value)
      → Yields
          (λ c. (All HasNoGroups c.allow → All (IsWhole env) c.allow) × All (IsWhole env) c.deny)
          (file_contents env n groups roles allow_list deny_list)
  unfolding file_contents
  file_contents-IsWhole n groups roles allow_list deny_list =
      Yields-bind (elements allow_list) _ λ vs _. Yields-bind (get_entries env n 0 vs) _ λ es a.
        Yields-bind (elements deny_list) _ λ ws _.
          Yields-bind (get_entries env n (length vs) ws) _ λ ds d.
            Yields-bind (use_groups_and_roles groups roles es) _ λ allow u.
              let used =
                use_groups_and_roles-IsWhole groups roles es (get_entries-IsWhole n 0 vs es a) in
              Yields-ok _ (used.value allow u, get_entries-IsWhole n (length vs) ws ds d)

  read_at-IsWhole :
      (n : ℕ) (auth_data : Value)
      → Yields
          (λ c. (All HasNoGroups c.allow → All (IsWhole env) c.allow) × All (IsWhole env) c.deny)
          (read_at env n auth_data)
  unfolding read_at
  read_at-IsWhole n auth_data =
      Yields-bind (get_default auth_data "allow" (list nil)) _ λ allow_list _.
        Yields-bind (get_default auth_data "deny" (list nil)) _ λ deny_list _.
          Yields-bind (get_default auth_data "groups" (dict end)) _ λ groups _.
            Yields-bind (get_default auth_data "roles" (dict end)) _
              λ roles _. file_contents-IsWhole n groups roles allow_list deny_list

  -- Taking back every role, by set_roles with no role, takes back nothing: in a file whose allowed
  -- entries have no groups, the entries read afterwards have the capabilities that their roles gave them
  -- before, and are otherwise the same.
  pub read_at-set_groups_or_roles :
      (s : AuthFile) (c : Contents)
      → read_at env s.readings s.auth_data ≡ ok c
      → All HasNoGroups c.allow
      → (n : ℕ)
      → read_at env n (set_groups_or_roles env (dict end) false s).1.auth_data
        ≡ ok (record c { roles = dict end })
  unfolding set_groups_or_roles is_dict_of_lists all_lists guard modify read write ◌>>=◌
  read_at-set_groups_or_roles s c e none n =
      let (allow, deny) = (read_at-IsWhole s.readings s.auth_data).value c e in
      let whole = allow none in
      rw
        (
          e,
          read_at-written env n (record c { roles = dict end }) whole deny,
          use_no_roles env c.groups c.allow whole none,
        )
        refl
