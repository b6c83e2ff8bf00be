-- ===== src/Auth/Kept.antt =====
-- The methods of `AuthService` (services/auth/auth_service.py) that change the file, and the user
-- ids of its entries.
use volttron_core.Prelude.{
  ◌≡◌, ◌∙◌, Bool, true, false, not, Option, none, some, List, [], ◌∷◌, ◌==◌,
}
use volttron_core.Py.Exec.{Exec, modify}
use volttron_core.Py.Keeps.{
  Keeps, Gives, Gives-bind, Keeps-gets, Keeps-pure, Keeps-if, Keeps-bind, Keeps-then,
}
use volttron_core.Py.Value.{Value, value_eq}
use volttron_core.Auth.Fields.{AuthEnv}
use volttron_core.Auth.Entries.{IsBuilt, new_entry-IsBuilt}
use volttron_core.Auth.File.{FileAction, remove_by_credentials}
use volttron_core.Auth.Unique.{
  IsUnique, remove_by_credentials-IsUnique, remove_by_indices-IsUnique,
  set_groups_or_roles-IsUnique,
}
use volttron_core.Auth.Added.{add-IsUnique}
use volttron_core.Auth.Replaced.{IsFree, update_by_index-IsUnique}
use volttron_core.Auth.Service.{AuthService, Failure, on_file}
use volttron_core.Auth.Failures.{
  Others, make_entry, catching, failure_fields, update_auth_entry, remove_auth_entry,
  delete_pending, update_found, update_pending, move_each, remove_each, find_failure,
  approve_authorization_failure, deny_authorization_failure, delete_authorization_failure,
}
use volttron_core.Auth.Calls.{
  AuthCall, perform_call, add_entry, update_index, remove_credentials, remove_indices, set_table,
  approve, deny, delete,
}

module _ (env : AuthEnv) where
  -- No two entries that the file allows have one user id, and no two that it denies.
  abbrev pub HasUniqueIds : AuthService → Type 0
  HasUniqueIds s = IsUnique env s.auth_file

  on_file-HasUniqueIds {ℓ} :
      {A : Type ℓ} (m : FileAction A) → Keeps (IsUnique env) m → Keeps HasUniqueIds (on_file m)
  unfolding on_file
  on_file-HasUniqueIds m k = record { at = λ s u. k.at s.auth_file u }

  catching-Keeps {ℓ κ} :
      {S : Type ℓ} (P : S → Type κ) (m : Exec S (Unit {0})) → Keeps P m → Keeps P (catching m)
  unfolding catching
  catching-Keeps P m k = record { at = λ s u. k.at s u }

  make_entry-IsBuilt :
      (p : Failure) → Gives (IsUnique env) (IsBuilt env) (make_entry env (failure_fields p))
  unfolding make_entry
  make_entry-IsBuilt p = record {
    keeps = record { at = λ s u. record { contents = u.contents; is = u.is; clean = u.clean } };
    gives = λ s u e made. new_entry-IsBuilt env (env.uuid s.readings 0) (failure_fields p) e made;
  }

  remove_auth_entry-HasUniqueIds :
      (credential : Value) (is_allow : Bool)
      → Keeps HasUniqueIds (remove_auth_entry env credential is_allow)
  unfolding remove_auth_entry
  remove_auth_entry-HasUniqueIds credential is_allow =
      on_file-HasUniqueIds (catching (remove_by_credentials env credential is_allow)) (
        catching-Keeps (IsUnique env) (remove_by_credentials env credential is_allow)
          (remove_by_credentials-IsUnique env credential is_allow))

  delete_pending-HasUniqueIds : (user_id : Value) → Keeps HasUniqueIds (delete_pending user_id)
  unfolding delete_pending modify
  delete_pending-HasUniqueIds user_id = record { at = λ s u. u }

  -- What other greenlets do while a call waits, which may read the file and does not write it.
  module _ (others : Others)
      (untouched : (s : AuthService) → (others s).auth_file.auth_data ≡ s.auth_file.auth_data) where
    others-HasUniqueIds : Keeps HasUniqueIds (modify others)
    unfolding modify
    others-HasUniqueIds = record {
      at = λ s u. record { contents = u.contents; is = untouched s ∙ u.is; clean = u.clean };
    }

    made-HasUniqueIds :
        (p : Failure)
        → Gives HasUniqueIds (IsBuilt env) (on_file (make_entry env (failure_fields p)))
    unfolding on_file
    made-HasUniqueIds p = record {
      keeps = on_file-HasUniqueIds _ ((make_entry-IsBuilt p).keeps);
      gives = λ s u. (make_entry-IsBuilt p).gives s.auth_file u;
    }

    update_auth_entry-HasUniqueIds :
        (p : Failure) (is_allow : Bool)
        → Keeps HasUniqueIds (update_auth_entry env others p is_allow)
    unfolding update_auth_entry
    update_auth_entry-HasUniqueIds p is_allow = Gives-bind _ _ (made-HasUniqueIds p) λ entry built.
        catching-Keeps HasUniqueIds _ (
          Keeps-then _ _ (on_file-HasUniqueIds _ (add-IsUnique env entry false is_allow built))
            others-HasUniqueIds)

    module _ (user_id : Value) where
      update_found-HasUniqueIds :
          (is_allow : Bool) (found : Option Failure)
          → Keeps HasUniqueIds (update_found env others user_id is_allow found)
      unfolding update_found
      update_found-HasUniqueIds is_allow none = Keeps-pure tt
      update_found-HasUniqueIds is_allow (some p) =
          Keeps-then _ _ (update_auth_entry-HasUniqueIds p is_allow)
            (delete_pending-HasUniqueIds user_id)

      update_pending-HasUniqueIds :
          (is_allow : Bool) → Keeps HasUniqueIds (update_pending env others user_id is_allow)
      unfolding update_pending
      update_pending-HasUniqueIds is_allow =
          Keeps-bind _ _ (Keeps-gets _)
            λ pending. update_found-HasUniqueIds is_allow (find_failure user_id pending)

      move_each-HasUniqueIds :
          (is_allow : Bool) (ps : List Failure)
          → Keeps HasUniqueIds (move_each env others user_id is_allow ps)
      unfolding move_each
      move_each-HasUniqueIds is_allow [] = Keeps-pure tt
      move_each-HasUniqueIds is_allow (p ∷ ps) =
          Keeps-then _ _
            (Keeps-if (user_id == p.user_id) _ _
              (Keeps-then _ _ (update_auth_entry-HasUniqueIds p is_allow)
                (remove_auth_entry-HasUniqueIds p.credentials (not is_allow)))
              (Keeps-pure tt))
            (move_each-HasUniqueIds is_allow ps)

      remove_each-HasUniqueIds :
          (is_allow : Bool) (ps : List Failure)
          → Keeps HasUniqueIds (remove_each env user_id is_allow ps)
      unfolding remove_each
      remove_each-HasUniqueIds is_allow [] = Keeps-pure tt
      remove_each-HasUniqueIds is_allow (p ∷ ps) =
          Keeps-then _ _
            (Keeps-if (user_id == p.user_id) _ _
              (remove_auth_entry-HasUniqueIds p.credentials is_allow) (Keeps-pure tt))
            (remove_each-HasUniqueIds is_allow ps)

      approve-HasUniqueIds : Keeps HasUniqueIds (approve_authorization_failure env others user_id)
      unfolding approve_authorization_failure
      approve-HasUniqueIds =
          Keeps-then _ _ (update_pending-HasUniqueIds true)
            (Keeps-bind _ _ (Keeps-gets _) λ denied. move_each-HasUniqueIds true denied)

      deny-HasUniqueIds : Keeps HasUniqueIds (deny_authorization_failure env others user_id)
      unfolding deny_authorization_failure
      deny-HasUniqueIds =
          Keeps-then _ _ (update_pending-HasUniqueIds false)
            (Keeps-bind _ _ (Keeps-gets _) λ approved. move_each-HasUniqueIds false approved)

      delete-HasUniqueIds : Keeps HasUniqueIds (delete_authorization_failure env others user_id)
      unfolding delete_authorization_failure
      delete-HasUniqueIds = Keeps-then _ _ (update_pending-HasUniqueIds true) (
          Keeps-then _ _ (delete_pending-HasUniqueIds user_id) (
            Keeps-bind _ _ (Keeps-gets _) λ approved.
              Keeps-then _ _ (remove_each-HasUniqueIds true approved)
                (Keeps-bind _ _ (Keeps-gets _) λ denied. remove_each-HasUniqueIds false denied)))

    -- An entry to be added or put in the place of another is one that the constructor has made, and
    -- no third entry has its user id.
    abbrev pub IsProper : AuthService → AuthCall → Type 0
    IsProper s (add_entry entry no_error is_allow) = IsBuilt env entry
    IsProper s (update_index entry index is_allow) =
        IsBuilt env entry × IsFree env entry index is_allow s.auth_file
    IsProper s _ = Unit

    -- Every call that changes the file, but for an add that overwrites, leaves a file that was
    -- written with entries of the constructor, of which no two that are allowed have one user id,
    -- and no two that are denied: if the file was such before, an entry that is given is one of the
    -- constructor, and one that takes the place of another has a user id that no third entry has.
    -- So it is also where the call raises. Other greenlets that run meanwhile do not change the file.
    pub perform_call-HasUniqueIds :
        (call : AuthCall) (s : AuthService)
        → IsProper s call
        → HasUniqueIds s
        → HasUniqueIds (perform_call env others call s).1
    unfolding perform_call on_file
    perform_call-HasUniqueIds (add_entry entry no_error is_allow) s built =
        (on_file-HasUniqueIds _ (add-IsUnique env entry no_error is_allow built)).at s
    perform_call-HasUniqueIds (update_index entry index is_allow) s (built, free) =
        update_by_index-IsUnique env entry index is_allow s.auth_file built free
    perform_call-HasUniqueIds (remove_credentials credentials is_allow) s proper =
        (on_file-HasUniqueIds _ (remove_by_credentials-IsUnique env credentials is_allow)).at s
    perform_call-HasUniqueIds (remove_indices indices is_allow) s proper =
        (on_file-HasUniqueIds _ (remove_by_indices-IsUnique env indices is_allow)).at s
    perform_call-HasUniqueIds (set_table groups_or_roles is_group) s proper =
        (on_file-HasUniqueIds _ (set_groups_or_roles-IsUnique env groups_or_roles is_group)).at s
    perform_call-HasUniqueIds (approve user_id) s proper = (approve-HasUniqueIds user_id).at s
    perform_call-HasUniqueIds (deny user_id) s proper = (deny-HasUniqueIds user_id).at s
    perform_call-HasUniqueIds (delete user_id) s proper = (delete-HasUniqueIds user_id).at s
