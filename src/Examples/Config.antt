-- ===== src/Examples/Config.antt =====
-- The configuration store at concrete inputs.
use volttron_core.Prelude.{
  String, ◌≡◌, refl, Bool, true, false, none, some, [], ◌∷◌, All, contains, add, union, ap,
}
use volttron_core.Py.Dict.{has, lookup, get_or, insert, remove}
use volttron_core.Py.Exec.{◌>>=◌, gets, guard, lift, modify, pure, raise}
use mathlib.Core.Path.{subst}
use volttron_core.Py.Result.{ok}
use volttron_core.Py.Text.{
  lower, lower_char, lower_code, strip, lstrip, rstrip, remove_prefix, is_border,
}
use volttron_core.Py.Value.{Value, null, str, list, dict, to_items, to_fields}
use volttron_core.Config.Links.{
  check_for_recursion, strip_config_name, list_unique_links, item_links, field_links, link_of,
  follow_links, follow_children, minus,
}
use volttron_core.Config.Recursion.{Answer, check_for_recursion_exact}
use volttron_core.Config.Store.{
  AgentStore, ConfigStore, Disk, Env, changed, named, dict_item, dict_pop, get_config, agent_store,
  new_store, put_store, async_sync,
}
use volttron_core.Config.Service.{
  set_config, delete, process_raw_config, is_structure, add_config_to_store, refuse_recursion,
  without_old, save_store, send_update, call_agent, answered, is_any,
}
use volttron_core.Config.Settled.{IsSettled}
use volttron_core.Config.Invariant.{Call, set_config_call, perform, perform-IsSettled}
use volttron_core.Config.Tidy.{IsTidy}
use volttron_core.Config.ReadBack.{get_config-set_config, set_config_stale, IsMissing, IsCaught}
use volttron_core.Config.Deleted.{delete-IsMissing}
use volttron_core.Config.Startup.{
  load_store, process_store, process_entries, process_config, gather, not_recursive,
  load_store_sound, Parses,
}
use volttron_core.Config.View.{view}
use volttron_core.Config.Spec.{IsAtomic, step}
use volttron_core.Config.Refinement.{perform-IsAtomic}

abbrev points : Value
points = dict (to_fields (("points", str "config://points.csv") ∷ []))

abbrev env : Env
env = record {
  parse_json_config = λ text. ok (points);
  read_csv = λ text. ok (list (to_items []));
  dumps = λ v. "{}";
  now = λ s. null;
  is_peer = λ peer. true;
  answer = λ update. none;
}

abbrev empty : ConfigStore
empty = record { stores = []; handed_over = []; updates = [] }

empty-IsSettled : IsSettled empty
unfolding lookup
empty-IsSettled = record { tidy = λ identity agent e. cc; saved = λ identity agent e. cc }

strip_test : strip_config_name " /devices/building/ " ≡ "devices/building"
unfolding strip_config_name strip is_border contains
strip_test = refl

check_for_recursion_exact_example :
    (found : Bool) × (check_for_recursion "main"
        (list (to_items (str "config://a" ∷ [])))
        (("a", list (to_items (str "config://Main" ∷ []))) ∷ [])
      ≡ some found)
    × Answer
        (lower "main")
        (list (to_items (str "config://a" ∷ [])))
        (("a", list (to_items (str "config://Main" ∷ []))) ∷ [])
        found
check_for_recursion_exact_example =
    check_for_recursion_exact "main" (list (to_items (str "config://a" ∷ [])))
      (("a", list (to_items (str "config://Main" ∷ []))) ∷ [])

abbrev first_call : Call
first_call = set_config_call "platform.driver" "Config" "{}" "json" true true

abbrev driver : AgentStore
driver = record {
  configs = ("Config", points) ∷ [];
  store = ("Config", record { kind = "json"; modified = null; contents = "{}" }) ∷ [];
  name_map = ("config", "Config") ∷ [];
}

abbrev one_config : ConfigStore
one_config = record {
  stores = ("platform.driver", driver) ∷ [];
  handed_over = ("platform.driver", driver.store) ∷ [];
  updates = changed "platform.driver" "NEW" "Config" points true ∷ [];
}

first_call_made : perform env first_call empty ≡ (ok tt, one_config)
unfolding perform set_config ◌>>=◌ lookup process_raw_config is_structure add_config_to_store
    agent_store new_store refuse_recursion follow_links follow_children list_unique_links item_links
    field_links link_of union minus contains add lower lower_char lower_code strip strip_config_name
    lstrip rstrip is_border remove_prefix check_for_recursion without_old dict_pop get_or has insert
    remove gets guard lift modify pure raise save_store put_store async_sync send_update call_agent
    answered is_any
first_call_made = refl

perform-IsSettled_example : IsSettled (perform env first_call empty).1
perform-IsSettled_example = perform-IsSettled env first_call empty empty-IsSettled

one_config-IsSettled : IsSettled one_config
one_config-IsSettled = subst IsSettled (ap (λ r. r.1) first_call_made) perform-IsSettled_example

perform-IsAtomic_example :
    IsAtomic (view empty) (step env first_call (view empty)) (perform env first_call empty)
perform-IsAtomic_example = perform-IsAtomic env first_call empty empty-IsSettled

none_raised : IsCaught env
none_raised update e h = cc

get_config-set_config_example :
    (s' : ConfigStore) × (set_config env "listener" " Limits/" "x,y" "csv" false true one_config
      ≡ (ok tt, s'))
    × ((other : String)
        → lower (strip_config_name other) ≡ lower (strip_config_name " Limits/")
        → (get_config "listener" other true s' ≡ ok (str "x,y"))
          × (get_config "listener" other false s' ≡ ok (list (to_items []))))
unfolding lookup process_raw_config follow_links follow_children list_unique_links item_links
    field_links link_of union minus contains add lower lower_char lower_code strip strip_config_name
    lstrip rstrip is_border remove_prefix check_for_recursion
get_config-set_config_example =
    get_config-set_config env "listener" " Limits/" "x,y" "csv" (list (to_items [])) false true
      one_config one_config-IsSettled none_raised refl refl

set_config_stale_example :
    (s' : ConfigStore) × (agent : AgentStore) × (set_config env "platform.driver" "CONFIG" "{}"
        "json" true true one_config
      ≡ (ok tt, s'))
    × (lookup "platform.driver" s'.stores ≡ some agent)
    × (has "Config" agent.store ≡ true)
    × (has "CONFIG" agent.store ≡ true)
    × (lookup (lower "Config") agent.name_map ≡ some (strip_config_name "CONFIG"))
unfolding lookup process_raw_config is_structure follow_links follow_children list_unique_links
    item_links field_links link_of union minus contains add lower lower_char lower_code strip
    strip_config_name lstrip rstrip is_border remove_prefix check_for_recursion
set_config_stale_example =
    set_config_stale env "platform.driver" "CONFIG" "{}" "json" points true true one_config
      one_config-IsSettled none_raised "Config" refl refl refl refl

delete-IsMissing_example :
    IsMissing "platform.driver" "/config"
      (delete env "platform.driver" "CONFIG" false false one_config).1
unfolding named dict_item lookup lower lower_char lower_code strip strip_config_name lstrip rstrip
    is_border contains
delete-IsMissing_example =
    delete-IsMissing env "platform.driver" "CONFIG" "/config" false false one_config driver "Config"
      one_config-IsSettled refl refl

abbrev disk : Disk
disk =
    ("Config", record { kind = "json"; modified = null; contents = "{}" })
    ∷ ("units", record { kind = "raw"; modified = null; contents = "kW" })
    ∷ []

abbrev both : AgentStore
both = record {
  configs = ("Config", points) ∷ ("units", str "kW") ∷ [];
  store = disk;
  name_map = ("config", "Config") ∷ ("units", "units") ∷ [];
}

load_store_sound_example : IsTidy both × (both.store ≡ disk) × All (Parses env) disk
unfolding load_store process_store process_entries process_config gather not_recursive has insert
    lookup process_raw_config is_structure follow_links follow_children list_unique_links item_links
    field_links link_of union minus contains add lower lower_char lower_code strip strip_config_name
    lstrip rstrip is_border remove_prefix check_for_recursion
load_store_sound_example = load_store_sound env disk both (refl, tt, (refl, tt, tt)) refl
