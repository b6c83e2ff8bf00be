-- ===== src/PubSub/Protected/Laws.antt =====
-- What an entry of the table of protected topics protects, and how the table is loaded.
use text.Mathlib.Text.{starts_with}
use text.Mathlib.TextEquality.{eq_iff}
use volttron_core.Prelude.{
  String, ◌≡◌, ◌≢◌, Bool, true, false, none, some, List, [], ◌∷◌, ◌++◌, arith, string_eq,
  if◌then◌else◌, inl, inr, Option-cases,
}
use volttron_core.Py.Dict.{Dict, lookup, insert, lookup-insert}
use volttron_core.PubSub.Protected
use volttron_core.PubSub.Protected.{
  Protected, Capabilities, to_list, is_pattern, inner, is_prefix, first_match,
}

-- The topics that an entry speaks of: for a regular expression those that it matches, for a plain
-- topic those that begin with it.
abbrev pub covers : (String → String → Bool) → String → String → Bool
covers matches entry topic =
    if is_pattern entry then matches (inner entry) topic else starts_with topic entry

is_prefix-insert :
    (topic entry : String) (cs : List String) (d : Dict (List String))
    → starts_with topic entry ≡ true
    → is_prefix topic (insert entry cs d) ≢ none
unfolding is_prefix insert
is_prefix-insert topic entry cs [] h e = ground arith
is_prefix-insert topic entry cs ((j, c) ∷ d) h e =
    ground (arith, eq_iff j entry, is_prefix-insert topic entry cs d h)

-- a prefix that is found is a key
lookup-is_prefix :
    (topic prefix : String) (d : Dict (List String))
    → is_prefix topic d ≡ some prefix
    → lookup prefix d ≢ none
unfolding is_prefix lookup
lookup-is_prefix topic prefix [] h e = cc
lookup-is_prefix topic prefix ((j, c) ∷ d) h e =
    ground (arith, eq_iff j prefix, lookup-is_prefix topic prefix d)

first_match-append :
    (matches : String → String → Bool) (topic pattern : String) (cs : List String)
    (patterns : List (String × List String))
    → matches pattern topic ≡ true
    → first_match matches topic (patterns ++ (pattern, cs) ∷ []) ≢ none
unfolding first_match
first_match-append matches topic pattern cs [] h e = ground arith
first_match-append matches topic pattern cs ((p, c) ∷ patterns) h e =
    ground (arith, first_match-append matches topic pattern cs patterns h)

-- After an entry is added, every topic that it covers is protected by some capabilities.
pub get-add :
    (matches : String → String → Bool) (entry topic : String) (caps : Capabilities) (p : Protected)
    → covers matches entry topic ≡ true
    → Protected.get matches topic (Protected.add entry caps p) ≢ none
unfolding Protected.get Protected.add
get-add matches entry topic caps p h =
    elim (Option-cases (is_prefix topic (Protected.add entry caps p).topics)) [
      | inl none_yet ↦ λ e. ground (
        arith,
        is_prefix-insert topic entry (to_list caps) p.topics,
        first_match-append matches topic (inner entry) (to_list caps) p.patterns,
      )
      | inr (prefix, found) ↦ λ e.
          ground (arith, lookup-is_prefix topic prefix (Protected.add entry caps p).topics found)
    ]

-- A plain topic has the capabilities of its own entry, whatever else is in the table.
pub get-add_self :
    (matches : String → String → Bool) (topic : String) (caps : Capabilities) (p : Protected)
    → is_pattern topic ≡ false
    → Protected.get matches topic (Protected.add topic caps p) ≡ some (to_list caps)
unfolding Protected.get Protected.add
get-add_self matches topic caps p h =
    ground (arith, lookup-insert topic topic (to_list caps) p.topics, eq_iff topic topic)
