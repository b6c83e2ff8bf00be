-- ===== src/Auth/Rereading.antt =====
-- `AuthFile.read` of services/auth/auth_service.py after `_write`.
use volttron_core.Prelude.{ℕ, ◌≡◌, refl, List, [], ◌∷◌, length, All}
use volttron_core.Py.Access.{get_default}
use volttron_core.Py.Dict.{lookup}
use volttron_core.Py.Result.{ok, Yields, Yields-ok, Yields-bind, ◌>>=◌}
use volttron_core.Py.Value.{Value, list, dict, nil, end, to_items}
use volttron_core.Auth.Fields.{AuthEnv, elements, update_all, gather_capabilities}
use volttron_core.Auth.Built.{of-to_items}
use volttron_core.Auth.Entry.{AuthEntry, add_capabilities}
use volttron_core.Auth.Entries.{IsBuilt}
use volttron_core.Auth.ReadBack.{
  IsWhole, Steady, IsBuilt-Steady, get_entries-IsBuilt, get_entries-entry_values,
  get_entries-entry_values_same,
}
use volttron_core.Auth.Reading.{
  Contents, get_entries, use_groups_and_roles, use_groups_and_roles_of, file_contents, read_at,
  gather_roles, role_capabilities, as_set,
}
use volttron_core.Auth.File.{entry_values, written}

module _ (P : AuthEntry → Type 0) (steady : Steady P) where
  add_capabilities-Steady :
      (cs : List Value) (roles : Value) (e : AuthEntry)
      → P e
      → Yields P (add_capabilities cs (record e { roles = roles }))
  unfolding add_capabilities
  add_capabilities-Steady cs roles e p =
      Yields-bind (gather_capabilities cs []) _
        λ temp _. Yields-ok _ (steady e roles (update_all e.capabilities temp) p)

  pub use_groups_and_roles_of-Steady :
      (groups roles : Value) (e : AuthEntry)
      → P e
      → Yields P (use_groups_and_roles_of groups roles e)
  unfolding use_groups_and_roles_of
  use_groups_and_roles_of-Steady groups roles e p = Yields-bind (elements e.groups) _ λ gs _.
      Yields-bind (gather_roles groups gs e.roles) _ λ entry_roles _.
        Yields-bind (elements entry_roles) _ λ names _.
          Yields-bind (role_capabilities roles names (list nil)) _ λ found _.
            Yields-bind (elements found) _
              λ cs _. Yields-bind (as_set cs) _ λ distinct _. add_capabilities-Steady distinct _ e p

  pub use_groups_and_roles-Steady :
      (groups roles : Value) (es : List AuthEntry)
      → All P es
      → Yields (All P) (use_groups_and_roles groups roles es)
  unfolding use_groups_and_roles
  use_groups_and_roles-Steady groups roles [] p = Yields-ok [] tt
  use_groups_and_roles-Steady groups roles (e ∷ es) (p, ps) =
      let first = use_groups_and_roles_of-Steady groups roles e p in
      let more = use_groups_and_roles-Steady groups roles es ps in
      Yields-bind (use_groups_and_roles_of groups roles e) _ λ used u.
        Yields-bind (use_groups_and_roles groups roles es) _
          λ rest r. Yields-ok (used ∷ rest) (first.value used u, more.value rest r)

module _ (env : AuthEnv) (n : ℕ) where
  file_contents-IsBuilt :
      (groups roles allow_list deny_list : Value)
      → Yields
          (λ c. All (IsBuilt env) c.allow × All (IsBuilt env) c.deny)
          (file_contents env n groups roles allow_list deny_list)
  unfolding file_contents
  file_contents-IsBuilt groups roles allow_list deny_list =
      Yields-bind (elements allow_list) _ λ vs _. Yields-bind (get_entries env n 0 vs) _ λ es a.
        Yields-bind (elements deny_list) _ λ ws _.
          Yields-bind (get_entries env n (length vs) ws) _ λ ds d.
            Yields-bind (use_groups_and_roles groups roles es) _ λ allow u.
              let used =
                use_groups_and_roles-Steady (IsBuilt env) (IsBuilt-Steady env) groups roles es
                  (get_entries-IsBuilt env n 0 vs es a) in
              Yields-ok _ (used.value allow u, get_entries-IsBuilt env n (length vs) ws ds d)

  -- The entries that are read of any file.
  pub read_at-IsBuilt :
      (auth_data : Value)
      → Yields (λ c. All (IsBuilt env) c.allow × All (IsBuilt env) c.deny) (read_at env n auth_data)
  unfolding read_at
  read_at-IsBuilt auth_data =
      Yields-bind (get_default auth_data "allow" (list nil)) _ λ allow_list _.
        Yields-bind (get_default auth_data "deny" (list nil)) _ λ deny_list _.
          Yields-bind (get_default auth_data "groups" (dict end)) _ λ groups _.
            Yields-bind (get_default auth_data "roles" (dict end)) _
              λ roles _. file_contents-IsBuilt groups roles allow_list deny_list

  pub read_at-written_eq :
      (c : Contents)
      → read_at env n (written c)
        ≡ file_contents env n c.groups c.roles
            (list (to_items (entry_values c.allow)))
            (list (to_items (entry_values c.deny)))
  unfolding read_at get_default written lookup
  read_at-written_eq c = refl

  -- The entries that are read of a file that was written.
  pub read_at-written_Steady :
      (P Q : AuthEntry → Type 0)
      → Steady P
      → Steady Q
      → (c : Contents) → All (IsBuilt env) c.allow
      → All (IsBuilt env) c.deny
      → All P c.allow
      → All Q c.deny
      → Yields (λ r. All P r.allow × All Q r.deny) (read_at env n (written c))
  unfolding file_contents elements
  read_at-written_Steady P Q steady_p steady_q c allow deny p q =
      rw
        (
          read_at-written_eq c,
          of-to_items (entry_values c.allow),
          of-to_items (entry_values c.deny),
        )
        (Yields-bind (get_entries env n 0 (entry_values c.allow)) _ λ es a.
          Yields-bind (get_entries env n (length (entry_values c.allow)) (entry_values c.deny)) _
            λ ds d. Yields-bind (use_groups_and_roles c.groups c.roles es) _ λ allow' u.
              let used =
                use_groups_and_roles-Steady P steady_p c.groups c.roles es
                  (get_entries-entry_values env P steady_p n 0 c.allow es allow p a) in
              Yields-ok _ (
                used.value allow' u,
                get_entries-entry_values env Q steady_q n _ c.deny ds deny q d,
              ))

  -- Reading a file that was written gives the entries that were written, with what groups and roles
  -- give them, whatever is drawn: if every entry is one that the constructor makes of its fields.
  pub read_at-written :
      (c : Contents)
      → All (IsWhole env) c.allow
      → All (IsWhole env) c.deny
      → read_at env n (written c) ≡ (
          use_groups_and_roles c.groups c.roles c.allow >>= λ allow.
          ok (record c { allow = allow }))
  unfolding file_contents elements
  read_at-written c allow deny =
      rw
        (
          read_at-written_eq c,
          of-to_items (entry_values c.allow),
          of-to_items (entry_values c.deny),
          get_entries-entry_values_same env n 0 c.allow allow,
          get_entries-entry_values_same env n (length (entry_values c.allow)) c.deny deny,
        )
        refl
