-- ===== src/Config/Spec.antt =====
-- The configuration store as a map from names to configurations: what a call does to it.
use volttron_core.Prelude.{String, ◌≡◌, ◌⊎◌, none, some, ◌==◌, string_eq, if◌then◌else◌, ◌&&◌}
use volttron_core.Py.Result.{Result, ok, raised, Exception}
use volttron_core.Py.Text.{lower}
use volttron_core.Py.Value.{Value, str}
use volttron_core.Config.Links.{strip_config_name}
use volttron_core.Config.Store.{ConfigStore, Env}
use volttron_core.Config.Service.{process_raw_config}
use volttron_core.Config.Invariant.{
  Call, set_config_call, store_config_call, delete_call, delete_store_call, initialize_configs_call,
}
use volttron_core.Config.View.{Entry, View, Shows}

-- The name under which a configuration is known.
abbrev pub key_of : String → String
key_of config_name = lower (strip_config_name config_name)

-- The view with one entry replaced.
unfoldable pub put : String → String → Entry → View → View
put identity key entry v other k = if identity == other && key == k then entry else v other k

unfoldable pub drop_agent : String → View → View
drop_agent identity v other k = if identity == other then none else v other k

-- The text that is stored for a configuration that is not given as a text.
unfoldable pub text_of : Env → Value → String
text_of env (str text) = text
text_of env contents = env.dumps contents

abbrev pub parsed_entry : String → Result Value → Entry → Entry
parsed_entry raw (ok parsed) entry = some (raw, parsed)
parsed_entry raw (raised e) entry = entry

-- What a call promises, on the view alone.
unfoldable pub step : Env → Call → View → View
step env (set_config_call identity name raw kind trigger wanted) v =
    put identity (key_of name)
      (parsed_entry raw (process_raw_config env raw kind) (v identity (key_of name))) v
step env (store_config_call identity name contents trigger wanted) v =
    put identity (key_of name) (some (text_of env contents, contents)) v
step env (delete_call identity name trigger wanted) v = put identity (key_of name) none v
step env (delete_store_call identity) v = drop_agent identity v
step env (initialize_configs_call identity) v = v

-- The call took effect, or it raised and nothing changed.
abbrev pub IsAtomic : View → View → Result (Unit {0}) × ConfigStore → Type 0
IsAtomic before after (r, s) = Shows after s ⊎ ((e : Exception) × (r ≡ raised e) × Shows before s)
