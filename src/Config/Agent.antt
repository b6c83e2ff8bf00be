-- ===== src/Config/Agent.antt =====
-- The agents' side of the configuration store: the fields of `ConfigStore` in
-- volttron/client/vip/agent/subsystems/configstore.py, and the references between configurations.
pub mod Gather
pub mod Local
pub mod Calls
pub mod Preset
pub mod References
pub mod Left
pub mod Affected
pub mod Gathered
pub mod Current
pub mod Dependents
pub mod Updates
pub mod SetDefault
pub mod Defaults
use volttron_core.Prelude.{
  String, Bool, true, false, Option, none, some, List, [], ◌∷◌, contains, add, discard, is_empty,
  if◌then◌else◌, string_eq,
}
use volttron_core.Py.Dict.{Dict, lookup, get_or, has, insert, remove, update}
use volttron_core.Py.Exec.{Exec, gets, modify, ◌>>=◌, ◌>>◌}
use volttron_core.Py.Result.{Result, ok, raised, Exception, key_error}
use volttron_core.Py.Value.{Value}
use volttron_core.Config.Links.{list_unique_links}

-- An object that `_gather_config` makes: a text that is a link is replaced by the object of the
-- configuration of that name, which may contain itself. So `object_of name` stands for the object
-- that a table has under the name.
mutual
  pub data Object : Type 0 where
    atom : Value → Object
    object_of : String → Object
    list_of : Objects → Object
    dict_of : Members → Object

  pub data Objects : Type 0 where
    none_left : Objects
    object : Object → Objects → Objects

  pub data Members : Type 0 where
    no_more : Members
    member : String → Object → Members → Members

-- `already_gathered`: the objects by name; that of a configuration that is being gathered is there,
-- and what it will contain is not yet.
abbrev pub Gathering : Type 0
Gathering = Dict (Option Object)

-- An object and the table that its links refer to.
abbrev pub Gathered : Type 0
Gathered = Object × Gathering

-- A call of a callback: the callback, the name of the configuration, the action and the contents.
pub record Notice : Type 0 where
  pub callback : String
  pub config_name : String
  pub action : String
  pub contents : Gathered

pub record AgentConfig : Type 0 where
  pub ref_map : Dict (List String)
  pub reverse_ref_map : Dict (List String)
  pub store : Dict Value
  pub default_store : Dict Value
  pub name_map : Dict String
  pub default_name_map : Dict String
  pub initialized : Bool
  pub initial_callbacks_called : Bool
  pub subscriptions : Dict (Dict (List String))
  pub notices : List Notice

abbrev pub Step {ℓ} : Type ℓ → Type ℓ
Step A = Exec AgentConfig A

-- The loop of `_add_refs`.
unfoldable pub add_reverse : String → List String → Dict (List String) → Dict (List String)
add_reverse name [] reverse = reverse
add_reverse name (ref ∷ refs) reverse = add_reverse name refs (update ref [] (add name) reverse)

unfoldable pub add_refs : String → Value → Step (Unit {0})
add_refs config_name contents = modify λ s.
    let refs = list_unique_links contents in
    record s {
      ref_map = insert config_name refs s.ref_map;
      reverse_ref_map = add_reverse config_name refs s.reverse_ref_map;
    }

-- `reverse_ref_set.remove(config_name)`, and the end of an empty set
unfoldable pub drop_reference :
    String → String → Dict (List String) → Result (Unit {0}) × Dict (List String)
drop_reference name ref reverse =
    let referrers = get_or ref reverse [] in
    let left = discard name referrers in
    if contains name referrers
    then (ok tt, if is_empty left then remove ref reverse else insert ref left reverse)
    else (raised key_error, insert ref referrers reverse)

-- The loop of `_delete_refs`.
unfoldable pub drop_references : String → List String → Exec (Dict (List String)) (Unit {0})
drop_references name [] reverse = (ok tt, reverse)
drop_references name (ref ∷ refs) reverse =
    (drop_reference name ref >> drop_references name refs) reverse

abbrev pub on_reverse :
    AgentConfig → Result (Unit {0}) × Dict (List String) → Result (Unit {0}) × AgentConfig
on_reverse s (r, reverse) = (r, record s { reverse_ref_map = reverse })

unfoldable pub delete_refs : String → Step (Unit {0})
delete_refs config_name s =
    on_reverse (record s { ref_map = remove config_name s.ref_map })
      (drop_references config_name (get_or config_name s.ref_map []) s.reverse_ref_map)

unfoldable pub update_refs : String → Value → Step (Unit {0})
update_refs config_name contents = do delete_refs config_name; add_refs config_name contents
