-- ===== src/Auth/Roles.antt =====
-- `AuthFile.set_roles` of services/auth/auth_service.py: what taking back every role leaves of
-- the entries.
use volttron_core.Prelude.{String, ◌≡◌, refl, ap, true, List, [], ◌∷◌, All, Bool-cases, inl, inr}
use volttron_core.Py.Dict.{lookup, get_or}
use volttron_core.Py.Result
use volttron_core.Py.Result.{ok, raised, Yields, Yields-ok, Yields-bind, bind-eq-ok}
use volttron_core.Py.Value.{
  Value, null, bool, int, str, list, dict, nil, end, to_items, of_items, truthy,
}
use volttron_core.Auth.Fields.{
  AuthEnv, elements, characters, field_names, new_list, new_string, build_field, build_text,
  build_list, or_list, update_all, gather_capabilities,
}
use volttron_core.Auth.Built.{of-to_items, new_list_parts}
use volttron_core.Auth.Entry.{AuthEntry, add_capabilities}
use volttron_core.Auth.Entries.{IsListField}
use volttron_core.Auth.Reading.{
  get_list, extend, gather_roles, role_capabilities, is_hashable, as_set, roles_after,
  use_groups_and_roles, use_groups_and_roles_of,
}
use volttron_core.Auth.ReadBack.{IsWhole}

abbrev IsHashable : Value → Type 0
IsHashable v = is_hashable v ≡ true

characters-IsHashable : (s : String) → All IsHashable (characters s)
unfolding characters is_hashable
characters-IsHashable String.[] = tt
characters-IsHashable (String.◌∷◌ c s) = (refl, characters-IsHashable s)

-- No role gives a capability where there are none.
role_capabilities-none :
    (names : List Value)
    → All IsHashable names
    → role_capabilities (dict end) names (list nil) ≡ ok (list nil)
unfolding role_capabilities get_list extend elements is_hashable get_or lookup
role_capabilities-none [] h = refl
role_capabilities-none (str s ∷ names) (_, h) = role_capabilities-none names h
role_capabilities-none (null ∷ names) (_, h) = role_capabilities-none names h
role_capabilities-none (bool b ∷ names) (_, h) = role_capabilities-none names h
role_capabilities-none (int n ∷ names) (_, h) = role_capabilities-none names h
role_capabilities-none (list vs ∷ names) (x, h) = cc
role_capabilities-none (dict fs ∷ names) (x, h) = cc

-- The names that the roles of an entry are.
record HasNames (v : Value) : Type 0 where
  pub names : List Value
  pub are : elements v ≡ ok names
  pub hashable : All IsHashable names

or_list-HasNames : (w : Value) → HasNames w → HasNames (or_list w)
unfolding or_list elements
or_list-HasNames w h = elim (Bool-cases (truthy w)) [
  | inl full ↦ rw full h
  | inr none ↦ rw none (record { names = []; are = refl; hashable = tt })
]

module _ (env : AuthEnv) where
  new_list-IsHashable : (vs built : List Value) → new_list env vs ≡ ok built → All IsHashable built
  unfolding new_list is_hashable
  new_list-IsHashable [] built e = let same : [] ≡ built = cc in rw (← same) tt
  new_list-IsHashable (v ∷ vs) built e =
      let (s, rest, first, more, whole) = new_list_parts env v vs built e in
      rw (← whole) (refl, new_list-IsHashable vs rest more)

  list-HasNames :
      (vs : List Value) (w : Value)
      → Result.◌>>=◌ (new_list env vs) (λ built. ok (list (to_items built))) ≡ ok w
      → HasNames w
  unfolding elements
  list-HasNames vs w e =
      let (built, b, whole) =
        bind-eq-ok (new_list env vs) (λ built. ok (list (to_items built))) w e in
      let same : list (to_items built) ≡ w = cc in
      rw (← same) (record {
        names = built;
        are = ap ok (of-to_items built);
        hashable = new_list-IsHashable vs built b;
      })

  text-HasNames :
      (s : String) (w : Value)
      → Result.◌>>=◌ (new_string env s) (λ t. ok (str t)) ≡ ok w
      → HasNames w
  unfolding elements
  text-HasNames s w e =
      let (t, made, whole) = bind-eq-ok (new_string env s) (λ t. ok (str t)) w e in
      let same : str t ≡ w = cc in
      rw (← same) (record { names = characters t; are = refl; hashable = characters-IsHashable t })

  build_text-HasNames : (v w : Value) → build_text env v ≡ ok w → HasNames w
  unfolding build_text build_list elements
  build_text-HasNames (str s) w e = text-HasNames s w e
  build_text-HasNames (list vs) w e = list-HasNames (of_items vs) w e
  build_text-HasNames (dict fs) w e = list-HasNames (field_names fs) w e
  build_text-HasNames null w e = cc
  build_text-HasNames (bool b) w e = cc
  build_text-HasNames (int n) w e = cc

  IsListField-HasNames : (v : Value) → IsListField env v → HasNames v
  unfolding build_field or_list elements truthy
  IsListField-HasNames v f = elim (Bool-cases (truthy v)) [
    | inl full ↦
        rw (← f.is) (or_list-HasNames f.made (build_text-HasNames v f.made (rw full at f.makes)))
    | inr none ↦
        let made : null ≡ f.made = cc (rw none at f.makes) in
        rw (← f.is) (rw (← made) (record { names = []; are = refl; hashable = tt }))
  ]

  pub roles_after-same : (v : Value) → roles_after v v ≡ v
  unfolding roles_after
  roles_after-same (list vs) = refl
  roles_after-same _ = refl

  -- An entry without groups is left as it is where no role gives anything.
  use_no_roles_of :
      (groups : Value) (e : AuthEntry)
      → IsWhole env e
      → e.groups ≡ list nil
      → use_groups_and_roles_of groups (dict end) e ≡ ok e
  unfolding use_groups_and_roles_of gather_roles as_set add_capabilities gather_capabilities
      update_all elements
  use_no_roles_of groups e (built, roles) none =
      let named = IsListField-HasNames e.roles roles in
      rw
        (
          none,
          named.are,
          role_capabilities-none named.names named.hashable,
          roles_after-same e.roles,
        )
        refl

  pub use_no_roles :
      (groups : Value) (es : List AuthEntry)
      → All (IsWhole env) es
      → All (λ e. e.groups ≡ list nil) es
      → use_groups_and_roles groups (dict end) es ≡ ok es
  unfolding use_groups_and_roles
  use_no_roles groups [] w n = refl
  use_no_roles groups (e ∷ es) (whole, w) (none, n) =
      rw (use_no_roles_of groups e whole none, use_no_roles groups es w n) refl
