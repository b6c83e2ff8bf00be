-- ===== src/Examples/Agent.antt =====
-- The agents' side of the configuration store at concrete inputs.
use mathlib.Core.Path.{subst}
use volttron_core.Prelude.{
  String, ◌≡◌, ◌↔◌, refl, Bool, true, false, none, some, [], ◌∷◌, contains, union, ap,
}
use volttron_core.Py.Dict.{Dict, lookup, get_or, has, insert, remove, update}
use volttron_core.Py.Exec.{◌>>=◌}
use volttron_core.Py.Result.{ok, raised, key_error}
use volttron_core.Py.Text.{lower, lower_char, lower_code, strip, remove_prefix, is_border}
use volttron_core.Py.Value.{Value, is_null, str, list, to_items}
use volttron_core.Config.Links.{list_unique_links, item_links, link_of}
use volttron_core.Config.Agent.{
  AgentConfig, Gathered, add_refs, add_reverse, delete_refs, drop_references, update_refs,
}
use volttron_core.Config.Agent.Gather.{gather_affected, gather_config, contents_of}
use volttron_core.Config.Agent.Gathered.{gather_config_enough}
use volttron_core.Config.Agent.Preset.{set_default, store_default, is_contents, delete_default}
use volttron_core.Config.Agent.Calls.{AgentEnv, update_config}
use volttron_core.Config.Agent.Dependents.{DependsOn, gather_affected_dependents}
use volttron_core.Config.Agent.Current.{IsCurrent}
use volttron_core.Config.Agent.Updates.{update_config-IsCurrent}
use volttron_core.Config.Agent.SetDefault.{set_default-IsCurrent}
use volttron_core.Config.Agent.Defaults.{delete_default_stale}

abbrev env : AgentEnv
env = record {
  matches = λ name pattern. true;
  failure = λ notice. some key_error;
  upper = λ action. action;
  pushed = λ s. none;
  answer = λ s. none;
}

abbrev fresh : Bool → AgentConfig
fresh initialized = record {
  ref_map = [];
  reverse_ref_map = [];
  store = [];
  default_store = [];
  name_map = [];
  default_name_map = [];
  initialized = initialized;
  initial_callbacks_called = true;
  subscriptions = ("*", ("NEW", "print" ∷ []) ∷ []) ∷ [];
  notices = [];
}

fresh-IsCurrent : (initialized : Bool) → IsCurrent (fresh initialized)
unfolding lookup get_or contains
fresh-IsCurrent initialized = record {
  indexed = record { distinct = λ name. tt; exact = λ name ref. refl };
  in_effect = λ name. refl;
  defaults = tt;
}

abbrev links : Value
links = list (to_items (str "config://Points" ∷ []))

update_config-IsCurrent_example :
    IsCurrent (update_config env "NEW" "Devices" links true (fresh true)).1
update_config-IsCurrent_example =
    update_config-IsCurrent env "NEW" "Devices" links true (fresh true) (fresh-IsCurrent true)

set_default-IsCurrent_example : IsCurrent (set_default "Devices" links (fresh false)).1
set_default-IsCurrent_example =
    set_default-IsCurrent "Devices" links (fresh false) (fresh-IsCurrent false)

abbrev with_default : AgentConfig
with_default = record (fresh false) {
  ref_map = ("devices", "points" ∷ []) ∷ [];
  reverse_ref_map = ("points", "devices" ∷ []) ∷ [];
  default_store = ("devices", links) ∷ [];
  default_name_map = ("devices", "Devices") ∷ [];
}

default_made : set_default "Devices" links (fresh false) ≡ (ok tt, with_default)
unfolding set_default ◌>>=◌ is_contents store_default has update_refs delete_refs drop_references
    get_or add_refs insert add_reverse remove list_unique_links lower item_links union link_of strip
    update remove_prefix is_border
default_made = refl

with_default-IsCurrent : IsCurrent with_default
with_default-IsCurrent = subst IsCurrent (ap (λ r. r.1) default_made) set_default-IsCurrent_example

gather_affected_dependents_example :
    (seen : Dict String) × (s : AgentConfig) × (gather_affected "points"
        (("points", "UPDATE") ∷ [])
        with_default
      ≡ (ok seen, s))
    × ((m : String) → (has m seen ≡ true) ↔ DependsOn "points" with_default m)
gather_affected_dependents_example =
    gather_affected_dependents "points" with_default with_default-IsCurrent "UPDATE"

delete_default_stale_example :
    (s : AgentConfig) × (delete_default "DEVICES" with_default ≡ (raised key_error, s))
    × (has (lower "DEVICES") s.default_store ≡ false)
    × (¬ (IsCurrent s))
unfolding has lookup lower lower_char lower_code
delete_default_stale_example =
    delete_default_stale "DEVICES" with_default with_default-IsCurrent refl refl refl refl

-- A configuration that links to itself.
abbrev circular : AgentConfig
circular = record (fresh true) {
  store = ("points", list (to_items (str "config://points" ∷ []))) ∷ [];
}

gather_config_enough_example : (g : Gathered) × (gather_config "points" circular ≡ ok g)
unfolding contents_of lookup is_null
gather_config_enough_example = gather_config_enough "points" circular refl
