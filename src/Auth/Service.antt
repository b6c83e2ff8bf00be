-- ===== src/Auth/Service.antt =====
-- `AuthService` of services/auth/auth_service.py: its state, how it reads the file and tells the
-- capabilities of the users.
use volttron_core.Prelude.{
  ℕ, zero, suc, String, Bool, true, false, Option, none, some, List, [], ◌∷◌, ◌++◌, is_empty,
  if◌then◌else◌, contains, string_eq,
}
use volttron_core.Py.Access.{as_text}
use volttron_core.Py.Dict.{Dict, insert}
use volttron_core.Py.Exec.{Exec, pure, raise, lift, gets, modify, ◌>>=◌, ◌>>◌}
use volttron_core.Py.Result.{Result, ok, raised, Exception, error}
use volttron_core.Py.Value.{Value, ℤ, dict, to_fields, truthy, is_null}
use volttron_core.Auth.Fields.{AuthEnv}
use volttron_core.Auth.Entry.{AuthEntry}
use volttron_core.Auth.File.{AuthFile, FileAction, read_allow_entries, read_deny_entries}

-- {"domain": ..., "address": ..., "mechanism": ..., "credentials": ..., "user_id": ..., "retries": ...}
pub record Failure : Type 0 where
  pub domain : Value
  pub address : Value
  pub mechanism : Value
  pub credentials : Value
  pub user_id : Value
  pub retries : ℕ

-- A call of "auth.update" at a peer, or an "auth_update" for the pubsub subsystem of the router.
pub data Sent : Type 0 where
  peer_update : String → Dict Value → Sent
  pubsub_update : Dict Value → Sent

pub record AuthService : Type 0 where
  pub auth_file : AuthFile
  pub auth_entries : List AuthEntry
  pub auth_pending : List Failure
  pub auth_denied : List Failure
  pub auth_approved : List Failure
  pub is_connected : Bool
  pub sent : List Sent

abbrev pub Action {ℓ} : Type ℓ → Type ℓ
Action A = Exec AuthService A

-- What is given to the service, and what is not its own: `list.sort`, the peers (by the number of
-- the attempt), what a send raises, the encoding of keys, `int`, and the system's users and agents.
pub record ServiceEnv : Type 0 where
  pub fields : AuthEnv
  pub allow_any : Bool
  pub setup_mode : Bool
  pub identity : String
  pub sort : List AuthEntry → List AuthEntry
  pub peerlist : ℕ → Result (List String)
  pub peers_list : List String
  pub failure : Sent → Option Exception
  pub encode_key : String → String
  pub to_int : String → Result ℤ
  pub uid : ℤ
  pub agent_uuid_from_pid : ℤ → Option String
  -- what other greenlets do while `AuthFile.add` sleeps
  pub others : AuthService → AuthService

-- A method of `self.auth_file`.
unfoldable pub on_file {ℓ} : {A : Type ℓ} → FileAction A → Action A
on_file m s = let (result, file) = m s.auth_file in (result, record s { auth_file = file })

unfoldable pub failure_of : AuthEntry → Failure
failure_of e = record {
  domain = e.domain;
  address = e.address;
  mechanism = e.mechanism;
  credentials = e.credentials;
  user_id = e.user_id;
  retries = 0;
}

unfoldable pub auth_list : List AuthEntry → List Failure
unfolding failure_of
auth_list [] = []
auth_list (e ∷ es) =
    let rest = auth_list es in if is_null e.address then rest else failure_of e ∷ rest

unfoldable pub update_auth_lists : List AuthEntry → Bool → Action (Unit {0})
unfolding auth_list
update_auth_lists entries is_allow = modify λ s.
    if is_allow
    then record s { auth_approved = auth_list entries }
    else record s { auth_denied = auth_list entries }

-- user_to_caps[entry.user_id] = entry.capabilities
unfoldable pub user_capabilities : List AuthEntry → Dict Value → Result (Dict Value)
unfolding as_text
user_capabilities [] user_to_caps = ok user_to_caps
user_capabilities (e ∷ es) user_to_caps = elim (as_text e.user_id) [
  | ok user ↦ user_capabilities es (insert user (dict (to_fields e.capabilities)) user_to_caps)
  | raised why ↦ raised why
]

unfoldable pub get_user_to_capabilities : AuthService → Result (Dict Value)
unfolding user_capabilities
get_user_to_capabilities s = user_capabilities s.auth_entries []

-- One attempt to get the peers: where the call raises they are read from the subsystem.
unfoldable pub attempt_peers : ServiceEnv → ℕ → List String
attempt_peers env i = elim (env.peerlist i) [ ok peers ↦ peers | raised why ↦ env.peers_list ]

-- `while not peers and i < 3`, with the attempts that are left
unfoldable pub find_peers : ServiceEnv → ℕ → ℕ → List String
unfolding attempt_peers
find_peers env i zero = []
find_peers env i (suc left) =
    let rest = find_peers env (suc i) left in
    let peers = attempt_peers env (suc i) in if is_empty peers then rest else peers

unfoldable pub send : ServiceEnv → Sent → Action (Unit {0})
send env message s = (
  elim (env.failure message) [ none ↦ ok tt | some why ↦ raised why ],
  record s { sent = s.sent ++ message ∷ [] },
)

unfoldable pub send_each : ServiceEnv → Dict Value → List String → Action (Unit {0})
unfolding send
send_each env user_to_caps [] = pure tt
send_each env user_to_caps (peer ∷ peers) = do
  if contains peer (env.identity ∷ "control.connection" ∷ [])
      then pure tt
      else send env (peer_update peer user_to_caps)
  send_each env user_to_caps peers

unfoldable pub send_auth_update_to_pubsub : ServiceEnv → Action (Unit {0})
unfolding get_user_to_capabilities send
send_auth_update_to_pubsub env = do
  s ← gets (λ s. s)
  user_to_caps ← lift (get_user_to_capabilities s)
  send env (pubsub_update user_to_caps)

unfoldable pub send_capabilities : ServiceEnv → Action (Unit {0})
unfolding get_user_to_capabilities find_peers send_each send_auth_update_to_pubsub
send_capabilities env = do
  s ← gets (λ s. s)
  user_to_caps ← lift (get_user_to_capabilities s)
  let peers = find_peers env 0 3
  if is_empty peers
      then raise (error "No peers connected to the platform")
      else (send_each env user_to_caps peers >> send_auth_update_to_pubsub env)

unfoldable pub enabled_entries : List AuthEntry → List AuthEntry
enabled_entries [] = []
enabled_entries (e ∷ es) =
    let rest = enabled_entries es in if truthy e.enabled then e ∷ rest else rest

unfoldable pub read_auth_file : ServiceEnv → Action (Unit {0})
unfolding on_file read_allow_entries read_deny_entries update_auth_lists enabled_entries
    send_capabilities
read_auth_file env = do
  entries ← on_file (read_allow_entries env.fields)
  denied_entries ← on_file (read_deny_entries env.fields)
  update_auth_lists entries true
  update_auth_lists denied_entries false
  modify (λ s. record s { auth_entries = env.sort (enabled_entries entries) })
  connected ← gets (λ s. s.is_connected)
  if connected then send_capabilities env else pure tt
