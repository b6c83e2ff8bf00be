-- ===== src/Examples/Auth.antt =====
-- The authorization service at concrete inputs.
use volttron_core.Prelude.{
  ℕ, String, ◌≡◌, refl, true, false, none, some, [], ◌∷◌, All, contains, union, add,
}
use volttron_core.Py.Dict.{lookup, get_or, insert}
use volttron_core.Py.Exec.{◌>>=◌, modify, pure}
use volttron_core.Py.Result
use volttron_core.Py.Result.{ok, raised, value_error}
use volttron_core.Py.Value.{
  null, bool, str, list, dict, nil, end, pos, to_items, to_fields, truthy, is_null,
}
use volttron_core.Auth.Fields.{
  AuthEnv, text, build_field, build_text, build_list, new_list, new_string, elements, text_of,
  is_regex_text, last_is_slash, is_slash, or_list, isregex, length_field, match_field,
  get_capability, match_string, gather_capabilities, update_all,
}
use volttron_core.Auth.User.{dump_user, load_user}
use volttron_core.Auth.UserNames.{load_user-dump_user}
use volttron_core.Auth.Entry.{
  AuthEntry, valid_credentials, valid_mechanism, required_credentials, add_capabilities,
  matches_entry, match_optional, match_rest, match_mechanism, match_credentials, first_credential,
}
use volttron_core.Auth.Entries.{IsBuilt}
use volttron_core.Auth.Reading.{
  Contents, read_at, use_groups_and_roles, use_groups_and_roles_of, gather_roles, role_capabilities,
  get_list, extend, as_set, is_hashable, roles_after,
}
use volttron_core.Auth.ReadBack.{IsWhole}
use volttron_core.Auth.Rereading.{read_at-written}
use volttron_core.Auth.File.{
  AuthFile, written, remove_by_credentials, read, write, chosen, with_chosen, other_credentials,
  set_groups_or_roles,
}
use volttron_core.Auth.RolesKept.{read_at-set_groups_or_roles}
use volttron_core.Auth.Unique.{IsUnique}
use volttron_core.Auth.Calls.{perform_call, approve}
use volttron_core.Auth.Kept.{HasUniqueIds, perform_call-HasUniqueIds}
use volttron_core.Auth.Revoked.{IsOther, remove_by_credentials-IsOther}
use volttron_core.Auth.Service.{AuthService, ServiceEnv, Failure, read_auth_file, on_file}
use volttron_core.Auth.Authenticate.{Connection, authenticate, is_local, is_match}
use volttron_core.Auth.Refused.{authenticate-read_auth_file}
use volttron_core.Auth.Requests.{as_bytes}
use volttron_core.Auth.Zap.{Zap, Clock, round, rounds, settle, release, next_timeout}
use volttron_core.Auth.Rounds.{IsOpen, rounds-IsOpen, round-answered}

abbrev env : AuthEnv
env = record {
  to_text = λ v. "";
  compiles = λ e. true;
  matches = λ e value. false;
  uuid = λ reading index. "drawn";
}

load_user-dump_user_example :
    load_user (dump_user ("vip,a" ∷ "127.0.0.1" ∷ "CURVE" ∷ []))
    ≡ "vip,a" ∷ "127.0.0.1" ∷ "CURVE" ∷ []
load_user-dump_user_example =
    load_user-dump_user "vip,a" ("127.0.0.1" ∷ "CURVE" ∷ []) refl (refl, (refl, tt))

abbrev key : String
key = "0123456789012345678901234567890123456789012"

abbrev admin : AuthEntry
admin = record {
  domain = null;
  address = str "10.0.0.1";
  mechanism = str "CURVE";
  credentials = str key;
  groups = list nil;
  roles = list (to_items (str "operator" ∷ []));
  capabilities = [];
  comments = null;
  user_id = str "admin";
  enabled = bool true;
}

abbrev contents : Contents
contents = record {
  allow = admin ∷ [];
  deny = [];
  groups = dict end;
  roles = dict (to_fields (("operator", list (to_items (str "write" ∷ []))) ∷ []));
}

admin-IsBuilt : IsBuilt env admin
unfolding build_field build_text build_list new_list new_string elements truthy or_list is_null
    valid_credentials valid_mechanism required_credentials isregex length_field is_regex_text
    text_of last_is_slash is_slash
admin-IsBuilt = record {
  domain = refl;
  address = refl;
  credentials = refl;
  comments = refl;
  groups = record { made = null; makes = refl; is = refl };
  valid = refl;
  named = refl;
}

admin-IsWhole : IsWhole env admin
unfolding build_field build_text build_list new_list new_string elements truthy or_list
admin-IsWhole = (admin-IsBuilt, record { made = admin.roles; makes = refl; is = refl })

read_at-written_example :
    read_at env 7 (written contents)
    ≡ Result.◌>>=◌
        (use_groups_and_roles contents.groups contents.roles (admin ∷ []))
        (λ allow. ok (record contents { allow = allow }))
read_at-written_example = read_at-written env 7 contents (admin-IsWhole, tt) tt

-- The entry with what its role gives it.
abbrev read_contents : Contents
read_contents = record contents {
  allow = record admin { capabilities = ("write", null) ∷ [] } ∷ [];
}

contents_read : (n : ℕ) → read_at env n (written contents) ≡ ok read_contents
unfolding use_groups_and_roles use_groups_and_roles_of gather_roles role_capabilities get_list
    extend as_set is_hashable union add contains roles_after add_capabilities gather_capabilities
    get_capability update_all elements get_or lookup insert
contents_read n = read_at-written env n contents (admin-IsWhole, tt) tt

abbrev file : AuthFile
file = record { auth_data = written contents; readings = 0 }

abbrev without_roles : Contents
without_roles = record read_contents { roles = dict end }

read_at-set_groups_or_roles_example :
    read_at env 1 (set_groups_or_roles env (dict end) false file).1.auth_data ≡ ok without_roles
read_at-set_groups_or_roles_example =
    read_at-set_groups_or_roles env file read_contents (contents_read 0) (refl, tt) 1

abbrev stranded : Failure
stranded = record {
  domain = str "vip";
  address = str "10.0.0.2";
  mechanism = str "CURVE";
  credentials = str "abcdefghijabcdefghijabcdefghijabcdefghijabc";
  user_id = str "newcomer";
  retries = 1;
}

abbrev service : AuthService
service = record {
  auth_file = file;
  auth_entries = [];
  auth_pending = stranded ∷ [];
  auth_denied = [];
  auth_approved = [];
  is_connected = false;
  sent = [];
}

abbrev newcomer : AuthEntry
newcomer = record {
  domain = str "vip";
  address = str "10.0.0.2";
  mechanism = str "CURVE";
  credentials = str "abcdefghijabcdefghijabcdefghijabcdefghijabc";
  groups = list nil;
  roles = list nil;
  capabilities = [];
  comments = str "Auth entry added in setup mode";
  user_id = str "newcomer";
  enabled = bool true;
}

newcomer-IsBuilt : IsBuilt env newcomer
unfolding build_field build_text build_list new_list new_string elements truthy or_list is_null
    valid_credentials valid_mechanism required_credentials isregex length_field is_regex_text
    text_of last_is_slash is_slash
newcomer-IsBuilt = record {
  domain = refl;
  address = refl;
  credentials = refl;
  comments = refl;
  groups = record { made = null; makes = refl; is = refl };
  valid = refl;
  named = refl;
}

newcomer-IsWhole : IsWhole env newcomer
unfolding build_field truthy or_list
newcomer-IsWhole = (newcomer-IsBuilt, record { made = null; makes = refl; is = refl })

abbrev both : Contents
both = record contents { allow = admin ∷ newcomer ∷ []; roles = dict end }

both_read : (n : ℕ) → read_at env n (written both) ≡ ok both
unfolding use_groups_and_roles use_groups_and_roles_of gather_roles role_capabilities get_list
    extend as_set roles_after add_capabilities gather_capabilities update_all elements get_or lookup
both_read n = read_at-written env n both (admin-IsWhole, (newcomer-IsWhole, tt)) tt

abbrev file_of_both : AuthFile
file_of_both = record { auth_data = written both; readings = 0 }

abbrev left : Contents
left = record both { allow = newcomer ∷ [] }

removed :
    remove_by_credentials env (str key) true file_of_both
    ≡ (ok tt, record { auth_data = written left; readings = 1 })
unfolding remove_by_credentials read write chosen with_chosen other_credentials modify ◌>>=◌
removed = rw (both_read 0) refl

left_read : read_at env 5 (written left) ≡ ok left
unfolding use_groups_and_roles use_groups_and_roles_of gather_roles role_capabilities as_set
    roles_after add_capabilities gather_capabilities update_all elements
left_read = read_at-written env 5 left (newcomer-IsWhole, tt) tt

remove_by_credentials-IsOther_example : All (IsOther env (str key)) (chosen true left)
remove_by_credentials-IsOther_example =
    remove_by_credentials-IsOther env (str key) true file_of_both (rw removed refl) 5 left
      (rw removed left_read)

both-HasUniqueIds : IsUnique env file_of_both
unfolding contains
both-HasUniqueIds = record {
  contents = both;
  is = refl;
  clean = record {
    allow = (admin-IsBuilt, (newcomer-IsBuilt, tt));
    deny = tt;
    allow_ids = (refl, (refl, tt));
    deny_ids = tt;
  };
}

-- Meanwhile the file is read again, and nobody is denied.
abbrev reread : AuthService → AuthService
reread s = record (on_file (read env) s).1 { auth_denied = [] }

reread-same : (s : AuthService) → (reread s).auth_file.auth_data ≡ s.auth_file.auth_data
unfolding on_file read
reread-same s = refl

perform_call-HasUniqueIds_example :
    HasUniqueIds env
      (perform_call env reread
        (approve (str "newcomer"))
        (record service { auth_file = file_of_both })).1
perform_call-HasUniqueIds_example =
    perform_call-HasUniqueIds env reread reread-same (approve (str "newcomer"))
      (record service { auth_file = file_of_both }) tt both-HasUniqueIds

abbrev service_env : ServiceEnv
service_env = record {
  fields = env;
  allow_any = false;
  setup_mode = false;
  identity = "platform.auth";
  sort = λ es. es;
  peerlist = λ i. ok [];
  peers_list = [];
  failure = λ message. none;
  encode_key = λ k. k;
  to_int = λ s. raised value_error;
  uid = pos 0;
  agent_uuid_from_pid = λ pid. none;
  others = λ s. s;
}

abbrev stranger : Connection
stranger = record {
  domain = "vip";
  address = "10.0.0.2";
  mechanism = "CURVE";
  credentials = text "abcdefghijabcdefghijabcdefghijabcdefghijabc" ∷ [];
}

authenticate-read_auth_file_example :
    authenticate service_env (read_auth_file service_env service).1 stranger ≡ ok none
unfolding is_match matches_entry match_optional match_rest match_mechanism match_credentials
    match_field match_string is_regex_text last_is_slash is_slash is_local is_null
authenticate-read_auth_file_example =
    authenticate-read_auth_file service_env stranger service read_contents read_contents
      (contents_read 0) (contents_read 1) (λ P es h. h) ((λ enabled. refl), tt) refl refl

abbrev clock : Clock
clock = record { second = 1000; random = λ n. 500; uuid = λ n. "drawn" }

abbrev known : AuthService
known = record service { auth_entries = admin ∷ [] }

abbrev zap : Zap
zap = record {
  service = known;
  blocked = [];
  wait_list = [];
  timeout = none;
  responses = [];
  draws = 0;
}

zap-IsOpen : IsOpen zap
zap-IsOpen = record { waiting = refl; answered = tt }

rounds-IsOpen_example :
    IsOpen (rounds service_env clock (record { now = 3; zap = none } ∷ []) zap).1
rounds-IsOpen_example =
    rounds-IsOpen service_env clock (record { now = 3; zap = none } ∷ []) zap zap-IsOpen

-- Somebody else, who has the first entry.
abbrev entered : AuthEntry
entered = record admin { user_id = str "first"; address = str "10.0.0.9" }

abbrev asking : Zap
asking = record zap { service = record known { auth_entries = entered ∷ admin ∷ [] } }

asking-IsOpen : IsOpen asking
asking-IsOpen = record { waiting = refl; answered = tt }

round-answered_example :
    round service_env clock
      (record {
        now = 5;
        zap = some ("router" ∷ "" ∷ "1.0" ∷ "7" ∷ "vip" ∷ "10.0.0.1" ∷ "peer" ∷ "CURVE" ∷ key ∷ []);
      })
      asking
    ≡ (
      ok tt,
      record asking {
        responses = ("router" ∷ "" ∷ "1.0" ∷ "7" ∷ "200" ∷ "SUCCESS" ∷ "admin" ∷ "" ∷ []) ∷ [];
      },
    )
unfolding rounds settle release next_timeout ◌>>=◌ pure is_match matches_entry match_optional
    match_rest match_mechanism match_credentials match_field match_string is_regex_text
    last_is_slash is_slash is_null truthy length_field as_bytes first_credential
round-answered_example =
    round-answered service_env clock (record { now = 3; zap = none } ∷ []) asking asking
      asking-IsOpen refl 5 "router" "" "7" "vip" "10.0.0.1" "peer" key [] (entered ∷ []) [] admin
      "admin" refl (refl, tt) refl refl refl
