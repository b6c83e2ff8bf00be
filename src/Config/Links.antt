-- ===== src/Config/Links.antt =====
-- volttron/utils/storeutils.py: links between configurations, and the check for recursion.
use text.Mathlib.Text.{starts_with}
use volttron_core.Prelude.{
  ℕ, zero, suc, String, Bool, true, false, Option, none, some, List, [], ◌∷◌, length, contains, add,
  union, if◌then◌else◌, string_eq,
}
use volttron_core.Py.Dict.{Dict, lookup}
use volttron_core.Py.Text.{lower, strip, is_border, remove_prefix}
use volttron_core.Py.Value.{Value, Items, Fields, str, list, dict, nil, cons, end, field}

unfoldable pub strip_config_name : String → String
strip_config_name config_name = strip is_border config_name

abbrev pub link_prefix : String
link_prefix = "config://"

unfoldable pub check_for_config_link : String → Option String
unfolding strip_config_name
check_for_config_link value =
    if starts_with value link_prefix
    then some (lower (strip_config_name (remove_prefix link_prefix value)))
    else none

-- The link of a text in a configuration, which is read in lower case.
unfoldable pub link_of : String → List String
unfolding strip_config_name
link_of text =
    let value = lower text in
    if starts_with value link_prefix
    then strip_config_name (remove_prefix link_prefix value) ∷ []
    else []

unfoldable mutual
  -- The links of a value in a configuration.
  pub links_of : Value → List String
  links_of (str s) = link_of s
  links_of (list items) = item_links items
  links_of (dict fields) = field_links fields
  links_of _ = []

  pub item_links : Items → List String
  item_links nil = []
  item_links (cons v items) = union (links_of v) (item_links items)

  pub field_links : Fields → List String
  field_links end = []
  field_links (field k v fields) = union (links_of v) (field_links fields)

unfoldable pub list_unique_links : Value → List String
list_unique_links (list items) = item_links items
list_unique_links (dict fields) = field_links fields
list_unique_links _ = []

-- children - seen
unfoldable pub minus : List String → List String → List String
minus [] seen = []
minus (child ∷ children) seen =
    let rest = minus children seen in if contains child seen then rest else child ∷ rest

module _ (new_config_name : String) (existing_configs : Dict Value) where
  -- The loop of `_follow_links` over the children, with the call for a child's configuration. The
  -- answer comes with the set `seen`, which all calls share; `none` where `visit` has no answer.
  unfoldable pub follow_children :
      (String → Value → List String → Option (Bool × List String))
      → List String
      → List String
      → Option (Bool × List String)
  follow_children visit [] seen = some (false, seen)
  follow_children visit (child ∷ children) seen = elim (lookup child existing_configs) [
    | none ↦ follow_children visit children (add child seen)
    | some child_config ↦ elim (visit child child_config seen) [
      | none ↦ none
      | some (true, seen') ↦ some (true, seen')
      | some (false, seen') ↦ follow_children visit children seen'
    ]
  ]

  -- `_follow_links`, with at most so many calls one in another
  unfoldable pub follow_links : ℕ → String → Value → List String → Option (Bool × List String)
  follow_links zero current_name current_config seen = none
  follow_links (suc n) current_name current_config seen =
      let children = list_unique_links current_config in
      let seen' = add current_name seen in
      if contains new_config_name children
      then some (true, seen)
      else follow_children (follow_links n) (minus children seen') seen'

abbrev pub found_of : Option (Bool × List String) → Option Bool
found_of none = none
found_of (some (found, seen)) = some found

-- `check_for_recursion`; `none` never comes, since each call takes an existing name into `seen`
unfoldable pub check_for_recursion : String → Value → Dict Value → Option Bool
check_for_recursion new_config_name new_config existing_configs =
    let name = lower new_config_name in
    found_of (follow_links name existing_configs (suc (length existing_configs)) name new_config [])
