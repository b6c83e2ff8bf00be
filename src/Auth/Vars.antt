-- ===== src/Auth/Vars.antt =====
-- What `AuthEntry(**fields)` of services/auth/auth_service.py makes of the dictionary that is written
-- of an entry.
use volttron_core.Prelude.{String, ◌≡◌, refl, sym, ◌∙◌, false, [], ◌∷◌}
use volttron_core.Py.Dict.{Dict, get_or, lookup}
use volttron_core.Py.Result.{ok}
use volttron_core.Py.Value.{Value, dict, to_fields, truthy, is_null}
use volttron_core.Auth.Fields.{AuthEnv, or_list, build_capabilities_field, get_capability}
use volttron_core.Auth.Entry.{AuthEntry, new_entry, checked_entry, user_id_or, vars}
use volttron_core.Auth.Built.{of-to_fields}
use volttron_core.Auth.Entries.{IsListField, IsBuilt, entry_with, new_entry-Made}

module _ (env : AuthEnv) where
  build_capabilities_lem : (d : Dict Value) → build_capabilities_field (dict (to_fields d)) ≡ ok d
  unfolding build_capabilities_field truthy get_capability
  build_capabilities_lem [] = refl
  build_capabilities_lem ((k, v) ∷ d) = rw (of-to_fields d) refl

  user_id_or-same : (fresh : String) (v : Value) → is_null v ≡ false → user_id_or fresh v ≡ v
  unfolding user_id_or
  user_id_or-same fresh v h = rw h refl

  entry_with-eq :
      (fresh : String) (e : AuthEntry) (d a c g r : Value) (p : Dict Value) (m : Value)
      → d ≡ e.domain
      → a ≡ e.address
      → c ≡ e.credentials
      → or_list g ≡ e.groups
      → p ≡ e.capabilities
      → m ≡ e.comments
      → is_null e.user_id ≡ false
      → entry_with env fresh (vars e) d a c g r p m ≡ record e { roles = or_list r }
  unfolding vars get_or lookup
  entry_with-eq fresh e d a c g r p m hd ha hc hg hp hm named =
      rw (hd, ha, hc, hg, hp, hm, user_id_or-same fresh e.user_id named) refl

  -- What is written of a built entry is read as that entry, its roles as the constructor makes them.
  pub new_entry-vars :
      (fresh : String) (e read : AuthEntry)
      → IsBuilt env e
      → new_entry env fresh (vars e) ≡ ok read
      → read ≡ record e { roles = read.roles }
  unfolding vars get_or lookup
  new_entry-vars fresh e read built h =
      let m = new_entry-Made env fresh (vars e) read h in
      let listed = built.groups in
      let hg : m.groups ≡ listed.made = cc (m.groups_made, listed.makes) in
      let written : entry_with env fresh (vars e) m.domain m.address m.credentials m.groups m.roles
            m.capabilities m.comments
          ≡ record e { roles = or_list m.roles } =
        entry_with-eq fresh e m.domain m.address m.credentials m.groups m.roles m.capabilities
          m.comments (cc (m.domain_made, built.domain)) (cc (m.address_made, built.address))
          (cc (m.credentials_made, built.credentials)) (rw hg listed.is)
          (cc (m.capabilities_made, build_capabilities_lem e.capabilities))
          (cc (m.comments_made, built.comments)) built.named in
      let same : record e { roles = or_list m.roles } ≡ read = sym written ∙ m.is in
      rw (← same) refl

  -- and as the same entry where its roles are what the constructor makes of them.
  pub new_entry-vars_same :
      (fresh : String) (e : AuthEntry)
      → IsBuilt env e
      → IsListField env e.roles
      → new_entry env fresh (vars e) ≡ ok e
  unfolding new_entry checked_entry vars get_or lookup
  new_entry-vars_same fresh e built roles =
      let listed = built.groups in
      rw
        (
          built.domain,
          built.address,
          built.credentials,
          listed.makes,
          roles.makes,
          build_capabilities_lem e.capabilities,
          built.comments,
          built.valid,
          listed.is,
          roles.is,
          user_id_or-same fresh e.user_id built.named,
        )
        refl

  -- A user id that is there is kept.
  pub new_entry-vars_fresh :
      (fresh other : String) (e : AuthEntry)
      → is_null e.user_id ≡ false
      → new_entry env fresh (vars e) ≡ new_entry env other (vars e)
  unfolding new_entry vars get_or lookup
  new_entry-vars_fresh fresh other e named =
      rw (user_id_or-same fresh e.user_id named, user_id_or-same other e.user_id named) refl
