-- ===== src/Auth/Entries.antt =====
-- What `AuthEntry(**fields)` of services/auth/auth_service.py makes of a dictionary.
use volttron_core.Prelude.{String, ◌≡◌, refl, true, false, arith, Bool-cases, inl, inr}
use volttron_core.Py.Dict.{Dict, get_or}
use volttron_core.Py.Result.{Result, ok, bind-eq-ok, ◌>>=◌}
use volttron_core.Py.Value.{Value, null, bool, str, truthy, is_null}
use volttron_core.Auth.Fields.{AuthEnv, build_field, or_list, build_capabilities_field}
use volttron_core.Auth.Entry.{AuthEntry, new_entry, checked_entry, user_id_or, valid_credentials}
use volttron_core.Auth.Built.{build_field-build_field}

-- A field with an empty list for None.
pub record IsListField (env : AuthEnv) (v : Value) : Type 0 where
  pub made : Value
  pub makes : build_field env v ≡ ok made
  pub is : or_list made ≡ v

-- The fields of an entry are what the constructor makes of them, its roles apart.
pub record IsBuilt (env : AuthEnv) (e : AuthEntry) : Type 0 where
  pub domain : build_field env e.domain ≡ ok e.domain
  pub address : build_field env e.address ≡ ok e.address
  pub credentials : build_field env e.credentials ≡ ok e.credentials
  pub comments : build_field env e.comments ≡ ok e.comments
  pub groups : IsListField env e.groups
  pub valid : valid_credentials e.credentials e.mechanism ≡ ok tt
  pub named : is_null e.user_id ≡ false

module _ (env : AuthEnv) where
  IsListField-or_list : (v w : Value) → build_field env v ≡ ok w → IsListField env (or_list w)
  unfolding or_list build_field truthy
  IsListField-or_list v w e = elim (Bool-cases (truthy w)) [
    | inl full ↦
        rw full (record { made = w; makes = build_field-build_field env v w e; is = rw full refl })
    | inr none ↦ rw none (record { made = null; makes = refl; is = refl })
  ]

  checked_parts :
      (e made : AuthEntry)
      → checked_entry e ≡ ok made
      → (valid_credentials e.credentials e.mechanism ≡ ok tt) × (e ≡ made)
  unfolding checked_entry
  checked_parts e made h =
      let (t, valid, same) =
        bind-eq-ok (valid_credentials e.credentials e.mechanism) (λ _. ok e) made h in
      (valid, cc)

  module _ (fresh : String) (fields : Dict Value) where
    abbrev field_of : String → Result Value
    field_of name = build_field env (get_or name fields null)

    -- The constructor from each of its fields on.
    abbrev pub entry_with : Value → Value → Value → Value → Value → Dict Value → Value → AuthEntry
    entry_with domain address credentials groups roles capabilities comments = record {
      domain = domain;
      address = address;
      mechanism = get_or "mechanism" fields (str "CURVE");
      credentials = credentials;
      groups = or_list groups;
      roles = or_list roles;
      capabilities = capabilities;
      comments = comments;
      user_id = user_id_or fresh (get_or "user_id" fields null);
      enabled = get_or "enabled" fields (bool true);
    }

    abbrev from_comments : Value → Value → Value → Value → Value → Dict Value → Result AuthEntry
    from_comments d a c g r p =
        field_of "comments" >>= λ m. checked_entry (entry_with d a c g r p m)

    abbrev from_capabilities : Value → Value → Value → Value → Value → Result AuthEntry
    from_capabilities d a c g r =
        build_capabilities_field (get_or "capabilities" fields null) >>= from_comments d a c g r

    abbrev from_roles : Value → Value → Value → Value → Result AuthEntry
    from_roles d a c g = field_of "roles" >>= from_capabilities d a c g

    abbrev from_groups : Value → Value → Value → Result AuthEntry
    from_groups d a c = field_of "groups" >>= from_roles d a c

    abbrev from_credentials : Value → Value → Result AuthEntry
    from_credentials d a = field_of "credentials" >>= from_groups d a

    abbrev from_address : Value → Result AuthEntry
    from_address d = field_of "address" >>= from_credentials d

    pub record Made (e : AuthEntry) : Type 0 where
      pub domain : Value
      pub address : Value
      pub credentials : Value
      pub groups : Value
      pub roles : Value
      pub capabilities : Dict Value
      pub comments : Value
      pub domain_made : field_of "domain" ≡ ok domain
      pub address_made : field_of "address" ≡ ok address
      pub credentials_made : field_of "credentials" ≡ ok credentials
      pub groups_made : field_of "groups" ≡ ok groups
      pub roles_made : field_of "roles" ≡ ok roles
      pub capabilities_made :
          build_capabilities_field (get_or "capabilities" fields null) ≡ ok capabilities
      pub comments_made : field_of "comments" ≡ ok comments
      pub is_valid : valid_credentials credentials (get_or "mechanism" fields (str "CURVE")) ≡ ok tt
      pub is : entry_with domain address credentials groups roles capabilities comments ≡ e

    pub new_entry-Made : (e : AuthEntry) → new_entry env fresh fields ≡ ok e → Made e
    unfolding new_entry
    new_entry-Made e h =
        let (d, hd, h) = bind-eq-ok (field_of "domain") from_address e h in
        let (a, ha, h) = bind-eq-ok (field_of "address") (from_credentials d) e h in
        let (c, hc, h) = bind-eq-ok (field_of "credentials") (from_groups d a) e h in
        let (g, hg, h) = bind-eq-ok (field_of "groups") (from_roles d a c) e h in
        let (r, hr, h) = bind-eq-ok (field_of "roles") (from_capabilities d a c g) e h in
        let (p, hp, h) =
          bind-eq-ok (build_capabilities_field (get_or "capabilities" fields null))
            (from_comments d a c g r) e h in
        let (m, hm, h) =
          bind-eq-ok (field_of "comments") (λ m. checked_entry (entry_with d a c g r p m)) e h in
        let (valid, same) = checked_parts (entry_with d a c g r p m) e h in
        record {
          domain = d;
          address = a;
          credentials = c;
          groups = g;
          roles = r;
          capabilities = p;
          comments = m;
          domain_made = hd;
          address_made = ha;
          credentials_made = hc;
          groups_made = hg;
          roles_made = hr;
          capabilities_made = hp;
          comments_made = hm;
          is_valid = valid;
          is = same;
        }

    user_id_or-named : (v : Value) → is_null (user_id_or fresh v) ≡ false
    unfolding user_id_or is_null
    user_id_or-named v = ground arith

    -- What the constructor returns.
    pub new_entry-IsBuilt : (e : AuthEntry) → new_entry env fresh fields ≡ ok e → IsBuilt env e
    new_entry-IsBuilt e h =
        let m = new_entry-Made e h in
        rw (← m.is) (record {
          domain = build_field-build_field env _ m.domain m.domain_made;
          address = build_field-build_field env _ m.address m.address_made;
          credentials = build_field-build_field env _ m.credentials m.credentials_made;
          comments = build_field-build_field env _ m.comments m.comments_made;
          groups = IsListField-or_list _ m.groups m.groups_made;
          valid = m.is_valid;
          named = user_id_or-named (get_or "user_id" fields null);
        })

    pub new_entry-IsListField :
        (e : AuthEntry) → new_entry env fresh fields ≡ ok e → IsListField env e.roles
    new_entry-IsListField e h =
        let m = new_entry-Made e h in rw (← m.is) (IsListField-or_list _ m.roles m.roles_made)
