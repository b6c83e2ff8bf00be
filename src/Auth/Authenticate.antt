-- ===== src/Auth/Authenticate.antt =====
-- `authenticate` and `get_authorizations` of `AuthService` (services/auth/auth_service.py).
use Prim.Native.Char.{code}
use package.text.Mathlib.Text.{starts_with}
use volttron_core.Prelude.{
  String, Bool, false, Option, none, some, List, [], ◌∷◌, ◌&&◌, ◌==◌, if◌then◌else◌, string_eq,
  nat_eq,
}
use volttron_core.Py.Result.{Result, ok, raised, type_error, index_error, ◌>>=◌}
use volttron_core.Py.Value.{
  Value, null, int, str, dict, list, to_items, to_fields, truthy, value_eq,
}
use volttron_core.Auth.Fields.{Credential, text, bytes}
use volttron_core.Auth.Entry.{AuthEntry, matches_entry}
use volttron_core.Auth.Service.{AuthService, ServiceEnv}
use volttron_core.Auth.User.{dump_user, load_user, put}

-- A connection to be authenticated.
pub record Connection : Type 0 where
  pub domain : String
  pub address : String
  pub mechanism : String
  pub credentials : List Credential

-- *credentials[:1], which `re.sub` refuses if it is bytes
unfoldable pub first_credentials : List Credential → Result (List String)
first_credentials [] = ok []
first_credentials (text c ∷ cs) = ok (c ∷ [])
first_credentials (bytes c ∷ cs) = raised type_error

-- dump_user(domain, address, mechanism, *credentials[:1])
unfoldable pub dump_connection : Connection → Result Value
unfolding first_credentials dump_user
dump_connection c = do
  credentials ← first_credentials c.credentials
  ok (str (dump_user (c.domain ∷ c.address ∷ c.mechanism ∷ credentials)))

unfoldable pub is_match : ServiceEnv → AuthEntry → Connection → Result Bool
unfolding matches_entry
is_match env e c = matches_entry env.fields e c.domain c.address c.mechanism c.credentials

-- The first entry that matches.
unfoldable pub first_entry : ServiceEnv → Connection → List AuthEntry → Result (Option AuthEntry)
unfolding is_match
first_entry env c [] = ok none
first_entry env c (e ∷ es) = do
  found ← is_match env e c
  if found then ok (some e) else first_entry env c es

-- entry.user_id or dump_user(...)
unfoldable pub user_of : AuthEntry → Connection → Result Value
unfolding dump_connection
user_of e c = if truthy e.user_id then ok e.user_id else dump_connection c

-- address.split(":")
unfoldable pub split_colon : String → List String
unfolding put
split_colon String.[] = String.[] ∷ []
split_colon (String.◌∷◌ c s) =
    let rest = split_colon s in if code c == 58 then String.[] ∷ rest else put c rest

-- `parts` from its second element on, and its element at 0 or 2
unfoldable pub tail_parts : List String → List String
tail_parts [] = []
tail_parts (p ∷ ps) = ps

unfoldable pub part_0 : List String → Result String
part_0 [] = raised index_error
part_0 (p ∷ ps) = ok p

-- `if len(parts) > 2`: the agent of the process
unfoldable pub agent_of_parts : ServiceEnv → List String → Result (Option String)
agent_of_parts env (p ∷ q ∷ r ∷ ps) = do pid ← env.to_int r; ok (env.agent_uuid_from_pid pid)
agent_of_parts env _ = ok none

-- `if uid == os.getuid()`
unfoldable pub same_user : ServiceEnv → Connection → List String → Result (Option Value)
unfolding part_0 dump_connection
same_user env c parts = do
  part ← part_0 parts
  uid ← env.to_int part
  if int uid == int env.uid then (do user ← dump_connection c; ok (some user)) else ok none

-- `if agent_uuid`, which an empty text is not
unfoldable pub agent_or_user :
    ServiceEnv → Connection → List String → Option String → Result (Option Value)
unfolding same_user dump_user
agent_or_user env c parts none = same_user env c parts
agent_or_user env c parts (some agent_uuid) =
    if agent_uuid == ""
    then same_user env c parts
    else ok (some (str (dump_user (c.domain ∷ c.address ∷ "AGENT" ∷ agent_uuid ∷ []))))

-- The local connections without credentials.
unfoldable pub local_user : ServiceEnv → Connection → Result (Option Value)
unfolding split_colon tail_parts agent_of_parts agent_or_user
local_user env c = do
  let parts = tail_parts (split_colon c.address)
  agent_uuid ← agent_of_parts env parts
  agent_or_user env c parts agent_uuid

unfoldable pub is_local : Connection → Bool
is_local c = c.mechanism == "NULL" && starts_with c.address "localhost:"

unfoldable pub any_user : ServiceEnv → Connection → Result (Option Value)
unfolding dump_connection
any_user env c = if env.allow_any then (do user ← dump_connection c; ok (some user)) else ok none

-- What follows the loop over the entries.
unfoldable pub without_entry : ServiceEnv → Connection → Result (Option Value)
unfolding is_local local_user any_user
without_entry env c = do
  user ← if is_local c then local_user env c else ok none
  elim user [ none ↦ any_user env c | some u ↦ ok (some u) ]

unfoldable pub authenticate : ServiceEnv → AuthService → Connection → Result (Option Value)
unfolding first_entry user_of without_entry
authenticate env s c = do
  found ← first_entry env c s.auth_entries
  elim found [ none ↦ without_entry env c | some e ↦ do user ← user_of e c; ok (some user) ]

-- [entry.capabilities, entry.groups, entry.roles]
unfoldable pub authorizations_of : AuthEntry → Value
authorizations_of e = list (to_items (dict (to_fields e.capabilities) ∷ e.groups ∷ e.roles ∷ []))

-- `load_user` gives the four parts of a connection, or else ValueError.
unfoldable pub connection_of : List String → Option Connection
connection_of (domain ∷ address ∷ mechanism ∷ credentials ∷ []) = some (record {
  domain = domain;
  address = address;
  mechanism = mechanism;
  credentials = text credentials ∷ [];
})
connection_of _ = none

unfoldable pub is_user_connection : ServiceEnv → AuthEntry → Option Connection → Result Bool
unfolding is_match
is_user_connection env e none = ok false
is_user_connection env e (some c) = is_match env e c

unfoldable pub find_authorizations :
    ServiceEnv → String → Option Connection → List AuthEntry → Result Value
unfolding is_user_connection authorizations_of
find_authorizations env user_id parts [] = ok null
find_authorizations env user_id parts (e ∷ es) =
    if e.user_id == str user_id then ok (authorizations_of e) else (do
      found ← is_user_connection env e parts
      if found then ok (authorizations_of e) else find_authorizations env user_id parts es)

unfoldable pub get_authorizations : ServiceEnv → String → AuthService → Result Value
unfolding find_authorizations connection_of load_user
get_authorizations env user_id s =
    find_authorizations env user_id (connection_of (load_user user_id)) s.auth_entries
