-- ===== src/Auth/Calls.antt =====
-- The methods of `AuthFile` and `AuthService` (services/auth/auth_service.py) that change the file.
use volttron_core.Prelude.{Bool, false, List}
use volttron_core.Py.Value.{Value, ℤ}
use volttron_core.Auth.Entry.{AuthEntry}
use volttron_core.Auth.Fields.{AuthEnv}
use volttron_core.Auth.File.{
  add, update_by_index, remove_by_credentials, remove_by_indices, set_groups_or_roles,
}
use volttron_core.Auth.Service.{Action, on_file}
use volttron_core.Auth.Failures.{
  Others, approve_authorization_failure, deny_authorization_failure, delete_authorization_failure,
}

-- A call: an entry is added without `overwrite` or takes the place of another, entries are removed, groups or roles are set, or
-- a failure is decided upon.
pub data AuthCall : Type 0 where
  add_entry : AuthEntry → Bool → Bool → AuthCall
  update_index : AuthEntry → ℤ → Bool → AuthCall
  remove_credentials : Value → Bool → AuthCall
  remove_indices : List ℤ → Bool → AuthCall
  set_table : Value → Bool → AuthCall
  approve deny delete : Value → AuthCall

unfoldable pub perform_call : AuthEnv → Others → AuthCall → Action (Unit {0})
unfolding on_file add update_by_index remove_by_credentials remove_by_indices set_groups_or_roles
    approve_authorization_failure deny_authorization_failure delete_authorization_failure
perform_call env others (add_entry entry no_error is_allow) =
    on_file (add env entry false no_error is_allow)
perform_call env others (update_index entry index is_allow) =
    on_file (update_by_index env entry index is_allow)
perform_call env others (remove_credentials credentials is_allow) =
    on_file (remove_by_credentials env credentials is_allow)
perform_call env others (remove_indices indices is_allow) =
    on_file (remove_by_indices env indices is_allow)
perform_call env others (set_table groups_or_roles is_group) =
    on_file (set_groups_or_roles env groups_or_roles is_group)
perform_call env others (approve user_id) = approve_authorization_failure env others user_id
perform_call env others (deny user_id) = deny_authorization_failure env others user_id
perform_call env others (delete user_id) = delete_authorization_failure env others user_id
