-- ===== src/Auth/Unique.antt =====
-- `AuthFile` of services/auth/auth_service.py: the methods that remove entries and set groups
-- or roles, and the user ids of the entries.
use volttron_core.Prelude.{
  ℕ, zero, suc, ◌≡◌, refl, Bool, true, false, List, [], ◌∷◌, ◌==◌, All, Distinct, Bool-cases,
  Option-cases, inl, inr, if◌then◌else◌, length,
}
use volttron_core.Py.Exec.{modify}
use volttron_core.Py.Keeps.{Keeps, Gives, Gives-bind, Gives-lift, Keeps-guard, Keeps-then}
use volttron_core.Py.Result.{ok, bind-eq-ok}
use volttron_core.Py.Value.{Value, ℤ, value_eq}
use volttron_core.Auth.Fields.{AuthEnv}
use volttron_core.Auth.Entry.{AuthEntry}
use volttron_core.Auth.Entries.{IsBuilt}
use volttron_core.Auth.Indices.{place, delete_at, delete_entry, delete_entries, descending}
use volttron_core.Auth.Reading.{Contents, read_at}
use volttron_core.Auth.Rereading.{read_at-IsBuilt}
use volttron_core.Auth.Revoked.{All-other_credentials}
use volttron_core.Auth.UserIds.{
  user_ids, IsWithin, IsWithin-drop, IsWithin-keep, IsWithin-same, IsWithin-trans, read_at-IsWithin,
}
use volttron_core.Auth.File.{
  AuthFile, read, write, written, chosen, with_chosen, other_credentials, remove_by_credentials,
  remove_by_indices, set_groups_or_roles, is_dict_of_lists,
}

module _ (env : AuthEnv) where
  -- No two entries of a list have the same user id.
  pub record IsClean (c : Contents) : Type 0 where
    pub allow : All (IsBuilt env) c.allow
    pub deny : All (IsBuilt env) c.deny
    pub allow_ids : Distinct (user_ids c.allow)
    pub deny_ids : Distinct (user_ids c.deny)

  -- The file was written with such entries.
  pub record IsUnique (s : AuthFile) : Type 0 where
    pub contents : Contents
    pub is : s.auth_data ≡ written contents
    pub clean : IsClean contents

  IsClean-written :
      (n : ℕ) (c r : Contents) → IsClean c → read_at env n (written c) ≡ ok r → IsClean r
  IsClean-written n c r clean e =
      let within = (read_at-IsWithin env n c clean.allow clean.deny).value r e in
      let built = (read_at-IsBuilt env n (written c)).value r e in
      record {
        allow = built.0;
        deny = built.1;
        allow_ids = within.0.distinct clean.allow_ids;
        deny_ids = within.1.distinct clean.deny_ids;
      }

  pub IsClean-read :
      (n : ℕ) (s : AuthFile) (r : Contents)
      → IsUnique s
      → read_at env n s.auth_data ≡ ok r
      → IsClean r
  IsClean-read n s r unique e = IsClean-written n unique.contents r unique.clean (rw unique.is at e)

  pub read-IsClean : Gives IsUnique IsClean (read env)
  unfolding read
  read-IsClean = record {
    keeps = record { at = λ s u. record { contents = u.contents; is = u.is; clean = u.clean } };
    gives = λ s u c e. IsClean-read s.readings s c u e;
  }

  pub write-IsUnique : (c : Contents) → IsClean c → Keeps IsUnique (write c)
  unfolding write modify
  write-IsUnique c clean = record { at = λ s u. record { contents = c; is = refl; clean = clean } }

  pub chosen-IsBuilt :
      (is_allow : Bool) (c : Contents) → IsClean c → All (IsBuilt env) (chosen is_allow c)
  unfolding chosen
  chosen-IsBuilt true c clean = clean.allow
  chosen-IsBuilt false c clean = clean.deny

  pub IsClean-with_chosen :
      (is_allow : Bool) (es : List AuthEntry) (c : Contents)
      → IsClean c
      → All (IsBuilt env) es
      → (Distinct (user_ids (chosen is_allow c)) → Distinct (user_ids es))
      → IsClean (with_chosen is_allow es c)
  unfolding chosen with_chosen
  IsClean-with_chosen true es c clean built distinct = record {
    allow = built;
    deny = clean.deny;
    allow_ids = distinct clean.allow_ids;
    deny_ids = clean.deny_ids;
  }
  IsClean-with_chosen false es c clean built distinct = record {
    allow = clean.allow;
    deny = built;
    allow_ids = clean.allow_ids;
    deny_ids = distinct clean.deny_ids;
  }

  other_credentials-IsWithin :
      (credentials : Value) (es : List AuthEntry) → IsWithin (other_credentials credentials es) es
  unfolding other_credentials
  other_credentials-IsWithin credentials [] = IsWithin-same [] [] refl
  other_credentials-IsWithin credentials (e ∷ es) =
      let rest = other_credentials-IsWithin credentials es in
      elim (Bool-cases (e.credentials == credentials)) [
        | inl same ↦ rw same (IsWithin-drop e (other_credentials credentials es) es rest)
        | inr other ↦ rw other (IsWithin-keep e e (other_credentials credentials es) es refl rest)
      ]

  pub remove_by_credentials-IsUnique :
      (credentials : Value) (is_allow : Bool)
      → Keeps IsUnique (remove_by_credentials env credentials is_allow)
  unfolding remove_by_credentials
  remove_by_credentials-IsUnique credentials is_allow = Gives-bind _ _ read-IsClean λ c clean.
      write-IsUnique _ (
        IsClean-with_chosen is_allow (other_credentials credentials (chosen is_allow c)) c clean
          (All-other_credentials env credentials (IsBuilt env) (chosen is_allow c)
            (chosen-IsBuilt is_allow c clean))
          ((other_credentials-IsWithin credentials (chosen is_allow c)).distinct))

  delete_at-IsBuilt :
      (n : ℕ) (es : List AuthEntry)
      → All (IsBuilt env) es
      → All (IsBuilt env) (delete_at n es) × IsWithin (delete_at n es) es
  unfolding delete_at
  delete_at-IsBuilt n [] b = (tt, IsWithin-same [] [] refl)
  delete_at-IsBuilt zero (e ∷ es) (built, b) = (b, IsWithin-drop e es es (IsWithin-same es es refl))
  delete_at-IsBuilt (suc n) (e ∷ es) (built, b) =
      let (rest, within) = delete_at-IsBuilt n es b in
      ((built, rest), IsWithin-keep e e (delete_at n es) es refl within)

  delete_entry-IsBuilt :
      (index : ℤ) (es left : List AuthEntry)
      → All (IsBuilt env) es
      → delete_entry index es ≡ ok left
      → All (IsBuilt env) left × IsWithin left es
  unfolding delete_entry
  delete_entry-IsBuilt index es left b h = elim (Option-cases (place index (length es))) [
    | inl e ↦ absurd (cc (rw (delete_entry, e) at h))
    | inr (n, e) ↦
        let same : delete_at n es ≡ left = cc (rw (delete_entry, e) at h) in
        rw (← same) (delete_at-IsBuilt n es b)
  ]

  delete_entries-IsBuilt :
      (indices : List ℤ) (es left : List AuthEntry)
      → All (IsBuilt env) es
      → delete_entries indices es ≡ ok left
      → All (IsBuilt env) left × IsWithin left es
  unfolding delete_entries
  delete_entries-IsBuilt [] es left b h =
      let same : es ≡ left = cc in rw (← same) (b, IsWithin-same es es refl)
  delete_entries-IsBuilt (index ∷ indices) es left b h =
      let (some_left, e, rest_done) =
        bind-eq-ok (delete_entry index es) (delete_entries indices) left h in
      let (built, within) = delete_entry-IsBuilt index es some_left b e in
      let (rest, deeper) = delete_entries-IsBuilt indices some_left left built rest_done in
      (rest, IsWithin-trans left some_left es deeper within)

  pub remove_by_indices-IsUnique :
      (indices : List ℤ) (is_allow : Bool) → Keeps IsUnique (remove_by_indices env indices is_allow)
  unfolding remove_by_indices
  remove_by_indices-IsUnique indices is_allow = Gives-bind _ _ read-IsClean λ c clean.
      Gives-bind _ _
        (Gives-lift {Q = λ es. All (IsBuilt env) es × IsWithin es (chosen is_allow c)}
          (delete_entries (descending indices) (chosen is_allow c))
          (λ es e.
            delete_entries-IsBuilt (descending indices) (chosen is_allow c) es
              (chosen-IsBuilt is_allow c clean) e))
        λ es (built, within).
          write-IsUnique _ (IsClean-with_chosen is_allow es c clean built within.distinct)

  pub set_groups_or_roles-IsUnique :
      (groups_or_roles : Value) (is_group : Bool)
      → Keeps IsUnique (set_groups_or_roles env groups_or_roles is_group)
  unfolding set_groups_or_roles
  set_groups_or_roles-IsUnique v is_group =
      Keeps-then _ _ (Keeps-guard (is_dict_of_lists v) _)
        (Gives-bind _ _ read-IsClean λ c clean. write-IsUnique _ (tables v is_group c clean))
    where
      tables :
          (v : Value) (is_group : Bool) (c : Contents)
          → IsClean c
          → IsClean (if is_group then record c { groups = v } else record c { roles = v })
      tables v true c k = record {
        allow = k.allow;
        deny = k.deny;
        allow_ids = k.allow_ids;
        deny_ids = k.deny_ids;
      }
      tables v false c k = record {
        allow = k.allow;
        deny = k.deny;
        allow_ids = k.allow_ids;
        deny_ids = k.deny_ids;
      }
