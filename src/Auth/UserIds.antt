-- ===== src/Auth/UserIds.antt =====
-- The user ids of the entries that `AuthFile.read` (services/auth/auth_service.py) makes of what was
-- written.
use volttron_core.Prelude.{
  ℕ, suc, String, ◌≡◌, refl, Bool, true, false, ◌||◌, List, [], ◌∷◌, ◌==◌, arith, length, All,
  contains, Distinct,
}
use volttron_core.Py.Result.{ok, Yields, Yields-ok, Yields-bind}
use volttron_core.Py.Value.{Value, dict, to_fields, value_eq, is_null}
use volttron_core.Auth.Fields.{AuthEnv, elements}
use volttron_core.Auth.Built.{of-to_items, of-to_fields}
use volttron_core.Auth.Entry.{AuthEntry, vars}
use volttron_core.Auth.Entries.{IsBuilt}
use volttron_core.Auth.Vars.{new_entry-vars_fresh}
use volttron_core.Auth.Reading.{
  Contents, entry_of, get_entries, use_groups_and_roles, use_groups_and_roles_of, file_contents,
  read_at,
}
use volttron_core.Auth.ReadBack.{get_entries_parts, entry_of-vars}
use volttron_core.Auth.Rereading.{use_groups_and_roles_of-Steady, read_at-written_eq}
use volttron_core.Auth.File.{entry_values, written}

abbrev pub user_ids : List AuthEntry → List Value
user_ids [] = []
user_ids (e ∷ es) = e.user_id ∷ user_ids es

-- The user ids of the first entries are among those of the others, and no less distinct.
pub record IsWithin (es others : List AuthEntry) : Type 0 where
  pub missing :
      (user_id : Value)
      → contains user_id (user_ids others) ≡ false
      → contains user_id (user_ids es) ≡ false
  pub distinct : Distinct (user_ids others) → Distinct (user_ids es)

pub or_parts : (a b : Bool) → (a || b) ≡ false → (a ≡ false) × (b ≡ false)
or_parts true b h = cc
or_parts false b h = (refl, h)

pub IsWithin-drop :
    (e : AuthEntry) (es others : List AuthEntry) → IsWithin es others → IsWithin es (e ∷ others)
unfolding contains
IsWithin-drop e es others w = record {
  missing = λ user_id h. w.missing user_id (ground arith);
  distinct = λ h. w.distinct h.1;
}

pub IsWithin-keep :
    (e o : AuthEntry) (es others : List AuthEntry)
    → e.user_id ≡ o.user_id
    → IsWithin es others
    → IsWithin (e ∷ es) (o ∷ others)
unfolding contains
IsWithin-keep e o es others same w = record {
  missing = λ user_id h.
      let (other, absent) =
        or_parts (o.user_id == user_id) (contains user_id (user_ids others)) h in
      rw (same, other) (w.missing user_id absent);
  distinct = λ h. (rw same (w.missing o.user_id h.0), w.distinct h.1);
}

pub IsWithin-same :
    (es others : List AuthEntry) → user_ids es ≡ user_ids others → IsWithin es others
IsWithin-same es others same = record {
  missing = λ user_id q. rw same q;
  distinct = λ d. rw same d;
}

pub IsWithin-trans : (es fs gs : List AuthEntry) → IsWithin es fs → IsWithin fs gs → IsWithin es gs
IsWithin-trans es fs gs v w = record {
  missing = λ user_id q. v.missing user_id (w.missing user_id q);
  distinct = λ d. v.distinct (w.distinct d);
}

use_groups_and_roles-user_ids :
    (groups roles : Value) (es : List AuthEntry)
    → Yields (λ after. user_ids after ≡ user_ids es) (use_groups_and_roles groups roles es)
unfolding use_groups_and_roles
use_groups_and_roles-user_ids groups roles [] = Yields-ok [] refl
use_groups_and_roles-user_ids groups roles (e ∷ es) =
    let same =
      use_groups_and_roles_of-Steady (λ r. r.user_id ≡ e.user_id) (λ _ _ _ q. q) groups roles e
        refl in
    let more = use_groups_and_roles-user_ids groups roles es in
    Yields-bind (use_groups_and_roles_of groups roles e) _ λ used u.
      Yields-bind (use_groups_and_roles groups roles es) _
        λ rest r. Yields-ok (used ∷ rest) (rw (same.value used u, more.value rest r) refl)

module _ (env : AuthEnv) where
  get_entries-IsWithin :
      (n i : ℕ) (written read : List AuthEntry)
      → All (IsBuilt env) written
      → get_entries env n i (entry_values written) ≡ ok read
      → IsWithin read written
  unfolding get_entries entry_values
  get_entries-IsWithin n i [] read b h =
      let same : [] ≡ read = cc in
      rw (← same) (record { missing = λ user_id q. q; distinct = λ d. d })
  get_entries-IsWithin n i (e ∷ es) read (built, b) h =
      get_entries_parts env (λ rest. IsWithin rest es) (λ all. IsWithin all (e ∷ es)) n i
        (dict (to_fields (vars e))) (entry_values es) read h
        (λ rest r. get_entries-IsWithin n (suc i) es rest b r)
        (λ rest r w made.
          let same = entry_of-vars env (env.uuid n i) e r built made in
          IsWithin-keep r e rest es (rw same refl) w)
        (λ rest w. IsWithin-drop e rest es w)

  -- The entries that are read of a file that was written have no other user ids.
  pub read_at-IsWithin :
      (n : ℕ) (c : Contents)
      → All (IsBuilt env) c.allow
      → All (IsBuilt env) c.deny
      → Yields (λ r. IsWithin r.allow c.allow × IsWithin r.deny c.deny) (read_at env n (written c))
  unfolding file_contents elements
  read_at-IsWithin n c allow deny =
      rw
        (
          read_at-written_eq env n c,
          of-to_items (entry_values c.allow),
          of-to_items (entry_values c.deny),
        )
        (Yields-bind (get_entries env n 0 (entry_values c.allow)) _ λ es a.
          Yields-bind (get_entries env n (length (entry_values c.allow)) (entry_values c.deny)) _
            λ ds d. Yields-bind (use_groups_and_roles c.groups c.roles es) _ λ allow' u.
              let used = (use_groups_and_roles-user_ids c.groups c.roles es).value allow' u in
              Yields-ok _ (
                IsWithin-trans allow' es c.allow (IsWithin-same allow' es used)
                    (get_entries-IsWithin n 0 c.allow es allow a),
                get_entries-IsWithin n _ c.deny ds deny d,
              ))

  -- A user id that is there is not drawn, so the number of the reading does not matter.
  entry_of-vars_fresh :
      (fresh other : String) (e : AuthEntry)
      → is_null e.user_id ≡ false
      → entry_of env fresh (dict (to_fields (vars e)))
        ≡ entry_of env other (dict (to_fields (vars e)))
  unfolding entry_of
  entry_of-vars_fresh fresh other e named =
      rw (of-to_fields (vars e)) (new_entry-vars_fresh env fresh other e named)

  get_entries-entry_values_reading :
      (n m i : ℕ) (es : List AuthEntry)
      → All (IsBuilt env) es
      → get_entries env n i (entry_values es) ≡ get_entries env m i (entry_values es)
  unfolding get_entries entry_values
  get_entries-entry_values_reading n m i [] b = refl
  get_entries-entry_values_reading n m i (e ∷ es) (built, b) =
      rw
        (
          get_entries-entry_values_reading n m (suc i) es b,
          entry_of-vars_fresh (env.uuid n i) (env.uuid m i) e built.named,
        )
        refl

  pub read_at-written_reading :
      (n m : ℕ) (c : Contents)
      → All (IsBuilt env) c.allow
      → All (IsBuilt env) c.deny
      → read_at env n (written c) ≡ read_at env m (written c)
  unfolding file_contents elements
  read_at-written_reading n m c allow deny =
      rw
        (
          read_at-written_eq env n c,
          read_at-written_eq env m c,
          of-to_items (entry_values c.allow),
          of-to_items (entry_values c.deny),
          get_entries-entry_values_reading n m 0 c.allow allow,
          get_entries-entry_values_reading n m (length (entry_values c.allow)) c.deny deny,
        )
        refl
