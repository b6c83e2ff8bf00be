-- ===== src/Auth/Entry.antt =====
-- `AuthEntry` of services/auth/auth_service.py: how an entry is made of a dictionary, checked,
-- written back, given capabilities, and matched with a connection.
use volttron_core.Prelude.{
  ℕ, String, Bool, true, false, not, List, [], ◌∷◌, ◌&&◌, ◌||◌, ◌==◌, if◌then◌else◌, ltb, string_eq,
  nat_eq,
}
use volttron_core.Py.Dict.{Dict, get_or}
use volttron_core.Py.Result.{Result, ok, raised, index_error, auth_entry_invalid, ◌>>=◌, ◌>>◌}
use volttron_core.Py.Value.{Value, null, bool, str, dict, to_fields, is_null, is_text}
use volttron_core.Auth.Fields.{
  AuthEnv, build_field, build_capabilities_field, gather_capabilities, or_list, update_all, isregex,
  length_field, match_field, Credential, text,
}

pub record AuthEntry : Type 0 where
  pub domain : Value
  pub address : Value
  pub mechanism : Value
  pub credentials : Value
  pub groups : Value
  pub roles : Value
  pub capabilities : Dict Value
  pub comments : Value
  pub user_id : Value
  pub enabled : Value

unfoldable pub valid_mechanism : Value → Result (Unit {0})
valid_mechanism mechanism =
    if is_text mechanism "NULL" || (is_text mechanism "PLAIN" || is_text mechanism "CURVE")
    then ok tt
    else raised auth_entry_invalid

-- `BASE64_ENCODED_CURVE_KEY_LEN` of utils/keystore.py
abbrev pub encoded_curve_key_len : ℕ
encoded_curve_key_len = 43

-- What a mechanism with credentials asks of them.
unfoldable pub required_credentials : Value → Value → Result (Unit {0})
unfolding isregex length_field
required_credentials cred mechanism =
    if is_null cred
    then raised auth_entry_invalid
    else if isregex cred
    then ok tt
    else if is_text mechanism "CURVE" && not (length_field cred == encoded_curve_key_len)
    then raised auth_entry_invalid
    else ok tt

unfoldable pub valid_credentials : Value → Value → Result (Unit {0})
unfolding valid_mechanism required_credentials
valid_credentials cred mechanism = do
  valid_mechanism mechanism
  if is_text mechanism "NULL" then ok tt else required_credentials cred mechanism

-- user_id, or a fresh one where it is None
unfoldable pub user_id_or : String → Value → Value
user_id_or fresh user_id = if is_null user_id then str fresh else user_id

-- The end of the constructor: `_check_validity`.
unfoldable pub checked_entry : AuthEntry → Result AuthEntry
unfolding valid_credentials
checked_entry e = do valid_credentials e.credentials e.mechanism; ok e

-- `AuthEntry(**fields)`; `fresh` is the user id that is drawn where there is none.
unfoldable pub new_entry : AuthEnv → String → Dict Value → Result AuthEntry
unfolding build_field build_capabilities_field or_list user_id_or checked_entry get_or
new_entry env fresh fields = do
  domain ← build_field env (get_or "domain" fields null)
  address ← build_field env (get_or "address" fields null)
  credentials ← build_field env (get_or "credentials" fields null)
  groups ← build_field env (get_or "groups" fields null)
  roles ← build_field env (get_or "roles" fields null)
  capabilities ← build_capabilities_field (get_or "capabilities" fields null)
  comments ← build_field env (get_or "comments" fields null)
  checked_entry (record {
    domain = domain;
    address = address;
    mechanism = get_or "mechanism" fields (str "CURVE");
    credentials = credentials;
    groups = or_list groups;
    roles = or_list roles;
    capabilities = capabilities;
    comments = comments;
    user_id = user_id_or fresh (get_or "user_id" fields null);
    enabled = get_or "enabled" fields (bool true);
  })

-- vars(entry)
unfoldable pub vars : AuthEntry → Dict Value
vars e =
    ("domain", e.domain)
    ∷ ("address", e.address)
    ∷ ("mechanism", e.mechanism)
    ∷ ("credentials", e.credentials)
    ∷ ("groups", e.groups)
    ∷ ("roles", e.roles)
    ∷ ("capabilities", dict (to_fields e.capabilities))
    ∷ ("comments", e.comments)
    ∷ ("user_id", e.user_id)
    ∷ ("enabled", e.enabled)
    ∷ []

-- `add_capabilities` of a list
unfoldable pub add_capabilities : List Value → AuthEntry → Result AuthEntry
unfolding gather_capabilities update_all
add_capabilities capabilities e = do
  temp ← gather_capabilities capabilities []
  ok (record e { capabilities = update_all e.capabilities temp })

-- `self.domain is None or self.domain.match(domain)`
unfoldable pub match_optional : AuthEnv → Value → String → Result Bool
unfolding match_field
match_optional env field value =
    if is_null field then ok true else match_field env field (text value)

-- credentials[0]
unfoldable pub first_credential : List Credential → Result Credential
first_credential [] = raised index_error
first_credential (c ∷ cs) = ok c

unfoldable pub match_credentials : AuthEnv → Value → List Credential → Result Bool
unfolding first_credential match_field length_field
match_credentials env field credentials =
    if ltb 0 (length_field field)
    then (do c ← first_credential credentials; match_field env field c)
    else ok false

unfoldable pub match_mechanism : AuthEnv → AuthEntry → String → List Credential → Result Bool
unfolding match_credentials
match_mechanism env e mechanism credentials =
    if not (is_text e.mechanism mechanism)
    then ok false
    else if is_text e.mechanism "NULL"
    then ok true
    else match_credentials env e.credentials credentials

-- What follows the domain in `AuthEntry.match`.
unfoldable pub match_rest :
    AuthEnv → AuthEntry → String → String → List Credential → Bool → Result Bool
unfolding match_optional match_mechanism
match_rest env e address mechanism credentials false = ok false
match_rest env e address mechanism credentials true = do
  at_address ← match_optional env e.address address
  if at_address then match_mechanism env e mechanism credentials else ok false

-- AuthEntry.match
unfoldable pub matches_entry :
    AuthEnv → AuthEntry → String → String → String → List Credential → Result Bool
unfolding match_optional match_rest
matches_entry env e domain address mechanism credentials = do
  in_domain ← match_optional env e.domain domain
  match_rest env e address mechanism credentials in_domain
