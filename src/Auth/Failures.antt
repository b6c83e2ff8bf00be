-- ===== src/Auth/Failures.antt =====
-- `AuthService` of services/auth/auth_service.py: connections that failed to authenticate, and how
-- they are approved, denied and deleted. Without RabbitMQ (`_certs` is None).
use volttron_core.Prelude.{
  suc, Bool, true, false, not, Option, none, some, List, [], ◌∷◌, ◌++◌, ◌&&◌, ◌==◌, if◌then◌else◌,
}
use volttron_core.Py.Dict.{Dict}
use volttron_core.Py.Exec.{Exec, pure, gets, modify, ◌>>=◌, ◌>>◌}
use volttron_core.Py.Result.{
  Result, ok, raised, auth_entry_invalid, auth_file_index_error, auth_entry_exists,
}
use volttron_core.Py.Value.{Value, str, value_eq}
use volttron_core.Auth.Fields.{AuthEnv}
use volttron_core.Auth.Entry.{AuthEntry, new_entry}
use volttron_core.Auth.File.{FileAction, add, remove_by_credentials}
use volttron_core.Auth.Service.{AuthService, Action, Failure, on_file}

-- except AuthException
unfoldable pub unless_auth_exception : Result (Unit {0}) → Result (Unit {0})
unless_auth_exception (raised auth_entry_invalid) = ok tt
unless_auth_exception (raised auth_file_index_error) = ok tt
unless_auth_exception (raised (auth_entry_exists indices)) = ok tt
unless_auth_exception r = r

unfoldable pub catching {ℓ} : {S : Type ℓ} → Exec S (Unit {0}) → Exec S (Unit {0})
unfolding unless_auth_exception
catching m s = let (result, after) = m s in (unless_auth_exception result, after)

-- `AuthEntry(**fields)`, which may draw a user id
unfoldable pub make_entry : AuthEnv → Dict Value → FileAction AuthEntry
unfolding new_entry
make_entry env fields s =
    (new_entry env (env.uuid s.readings 0) fields, record s { readings = suc s.readings })

unfoldable pub failure_fields : Failure → Dict Value
failure_fields p =
    ("domain", p.domain)
    ∷ ("address", p.address)
    ∷ ("mechanism", p.mechanism)
    ∷ ("credentials", p.credentials)
    ∷ ("user_id", p.user_id)
    ∷ ("groups", str "")
    ∷ ("roles", str "")
    ∷ ("capabilities", str "")
    ∷ ("comments", str "Auth entry added in setup mode")
    ∷ []

-- `add` ends with `gevent.sleep(1)`: other greenlets run then, above all `watch_file`, which calls
-- `read_auth_file` when the file has changed.
abbrev pub Others : Type 0
Others = AuthService → AuthService

unfoldable pub update_auth_entry : AuthEnv → Others → Failure → Bool → Action (Unit {0})
unfolding on_file make_entry failure_fields catching add
update_auth_entry env others p is_allow = do
  entry ← on_file (make_entry env (failure_fields p))
  catching (do on_file (add env entry false false is_allow); modify others)

unfoldable pub remove_auth_entry : AuthEnv → Value → Bool → Action (Unit {0})
unfolding on_file catching remove_by_credentials
remove_auth_entry env credential is_allow =
    on_file (catching (remove_by_credentials env credential is_allow))

-- The loop over the pending failures stops at the first one of the user,
unfoldable pub find_failure : Value → List Failure → Option Failure
find_failure user_id [] = none
find_failure user_id (p ∷ ps) = if user_id == p.user_id then some p else find_failure user_id ps

-- which is deleted by its index.
unfoldable pub delete_failure : Value → List Failure → List Failure
delete_failure user_id [] = []
delete_failure user_id (p ∷ ps) =
    let rest = delete_failure user_id ps in if user_id == p.user_id then ps else p ∷ rest

unfoldable pub delete_pending : Value → Action (Unit {0})
unfolding delete_failure
delete_pending user_id =
    modify λ s. record s { auth_pending = delete_failure user_id s.auth_pending }

-- The first loop of the three methods: a pending failure is made an entry.
unfoldable pub update_found : AuthEnv → Others → Value → Bool → Option Failure → Action (Unit {0})
unfolding update_auth_entry delete_pending
update_found env others user_id is_allow none = pure tt
update_found env others user_id is_allow (some p) = do
  update_auth_entry env others p is_allow
  delete_pending user_id

unfoldable pub update_pending : AuthEnv → Others → Value → Bool → Action (Unit {0})
unfolding find_failure update_found
update_pending env others user_id is_allow = do
  pending ← gets (λ s. s.auth_pending)
  update_found env others user_id is_allow (find_failure user_id pending)

-- The last loops of approve and deny: an entry of the other list is moved over.
unfoldable pub move_each : AuthEnv → Others → Value → Bool → List Failure → Action (Unit {0})
unfolding update_auth_entry remove_auth_entry
move_each env others user_id is_allow [] = pure tt
move_each env others user_id is_allow (p ∷ ps) = do
  if user_id == p.user_id
      then (update_auth_entry env others p is_allow
          >> remove_auth_entry env p.credentials (not is_allow))
      else pure tt
  move_each env others user_id is_allow ps

unfoldable pub remove_each : AuthEnv → Value → Bool → List Failure → Action (Unit {0})
unfolding remove_auth_entry
remove_each env user_id is_allow [] = pure tt
remove_each env user_id is_allow (p ∷ ps) = do
  if user_id == p.user_id then remove_auth_entry env p.credentials is_allow else pure tt
  remove_each env user_id is_allow ps

unfoldable pub approve_authorization_failure : AuthEnv → Others → Value → Action (Unit {0})
unfolding update_pending move_each
approve_authorization_failure env others user_id = do
  update_pending env others user_id true
  denied ← gets (λ s. s.auth_denied)
  move_each env others user_id true denied

unfoldable pub deny_authorization_failure : AuthEnv → Others → Value → Action (Unit {0})
unfolding update_pending move_each
deny_authorization_failure env others user_id = do
  update_pending env others user_id false
  approved ← gets (λ s. s.auth_approved)
  move_each env others user_id false approved

unfoldable pub delete_authorization_failure : AuthEnv → Others → Value → Action (Unit {0})
unfolding update_pending delete_pending remove_each
delete_authorization_failure env others user_id = do
  update_pending env others user_id true
  delete_pending user_id
  approved ← gets (λ s. s.auth_approved)
  remove_each env user_id true approved
  denied ← gets (λ s. s.auth_denied)
  remove_each env user_id false denied

unfoldable pub is_same_connection : Failure → Failure → Bool
is_same_connection entry new =
    entry.domain == new.domain
    && (entry.address == new.address
        && (entry.mechanism == new.mechanism && entry.credentials == new.credentials))

-- entry["retries"] += 1 of the first entry with the connection, if there is one
unfoldable pub retry : Failure → List Failure → Option (List Failure)
unfolding is_same_connection
retry new [] = none
retry new (entry ∷ entries) =
    if is_same_connection entry new
    then some (record entry { retries = suc entry.retries } ∷ entries)
    else elim (retry new entries) [ none ↦ none | some rest ↦ some (entry ∷ rest) ]

-- `_update_auth_pending` with the fields of a new failure
unfoldable pub update_auth_pending : Failure → Action (Unit {0})
unfolding retry
update_auth_pending new = modify λ s. elim (retry new s.auth_denied) [
  | some denied ↦ record s { auth_denied = denied }
  | none ↦ elim (retry new s.auth_pending) [
    | some pending ↦ record s { auth_pending = pending }
    | none ↦ record s { auth_pending = s.auth_pending ++ record new { retries = 1 } ∷ [] }
  ]
]
