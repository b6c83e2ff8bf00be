-- ===== src/PubSub/Protected.antt =====
-- `ProtectedPubSubTopics`: the topics that only publishers with certain capabilities may use. A
-- regular expression is kept as its text; `matches pattern topic` is `re.compile("^" + pattern +
-- "$").match(topic)` of Python's `re`.
pub mod Laws
use Prim.Native.Char.{code}
use Prim.Native.String.{String}
use text.Mathlib.Text.{starts_with}
use volttron_core.Prelude.{
  Bool, true, false, ◌&&◌, Option, none, some, List, [], ◌∷◌, ◌++◌, ◌==◌, nat_eq, if◌then◌else◌,
}
use volttron_core.Py.Dict.{Dict, lookup, insert}

pub record Protected : Type 0 where
  pub topics : Dict (List String)
  pub patterns : List (String × List String)

abbrev pub empty : Protected
empty = record { topics = []; patterns = [] }

-- capabilities: a text stands for the list of it alone
pub data Capabilities : Type 0 where
  one : String → Capabilities
  many : List String → Capabilities

abbrev pub to_list : Capabilities → List String
to_list (one c) = c ∷ []
to_list (many cs) = cs

is_slash_last : String → Bool
is_slash_last String.[] = false
is_slash_last (String.◌∷◌ c String.[]) = code c == b'/'
is_slash_last (String.◌∷◌ c (String.◌∷◌ d s)) = is_slash_last (String.◌∷◌ d s)

-- len(topic) > 1 and topic[0] == topic[-1] == "/"
unfoldable pub is_pattern : String → Bool
unfolding is_slash_last
is_pattern String.[] = false
is_pattern (String.◌∷◌ c s) = code c == b'/' && is_slash_last s

drop_last : String → String
drop_last String.[] = String.[]
drop_last (String.◌∷◌ c String.[]) = String.[]
drop_last (String.◌∷◌ c (String.◌∷◌ d s)) = String.◌∷◌ c (drop_last (String.◌∷◌ d s))

-- topic[1:-1]
unfoldable pub inner : String → String
unfolding drop_last
inner String.[] = String.[]
inner (String.◌∷◌ c s) = drop_last s

unfoldable pub add : String → Capabilities → Protected → Protected
unfolding is_pattern inner insert
add topic capabilities p =
    let cs = to_list capabilities in
    if is_pattern topic
    then record p { patterns = p.patterns ++ (inner topic, cs) ∷ [] }
    else record p { topics = insert topic cs p.topics }

-- the first key of the dictionary that is a prefix of the topic
unfoldable pub is_prefix : String → Dict (List String) → Option String
is_prefix topic [] = none
is_prefix topic ((prefix, cs) ∷ d) =
    if starts_with topic prefix then some prefix else is_prefix topic d

module _ (matches : String → String → Bool) where
  unfoldable pub first_match : String → List (String × List String) → Option (List String)
  first_match topic [] = none
  first_match topic ((pattern, cs) ∷ rest) =
      if matches pattern topic then some cs else first_match topic rest

  unfoldable pub get : String → Protected → Option (List String)
  unfolding lookup is_prefix first_match
  get topic p = elim (lookup topic p.topics) [
    | some cs ↦ some cs
    | none ↦ elim (is_prefix topic p.topics) [
      | some prefix ↦ lookup prefix p.topics
      | none ↦ first_match topic p.patterns
    ]
  ]
