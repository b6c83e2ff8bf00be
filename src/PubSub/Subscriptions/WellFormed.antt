-- ===== src/PubSub/Subscriptions/WellFormed.antt =====
-- The invariant of the subscriptions: a key comes once in its dictionary, and no set is empty.
use volttron_core.Prelude.{
  String, ◌≡◌, refl, false, none, List, [], ◌∷◌, arith, contains, discard, add, is_empty, string_eq,
  if◌then◌else◌, ◌++◌,
}
use volttron_core.Py.Dict.{
  Each, lookup, get_or, remove, update, has, lookup-remove, Each-insert, Each-remove, Each-update,
  Each-get_or, Each-pointwise,
}
use volttron_core.Py.Value.{Value, value_eq}
use volttron_core.PubSub.Subscriptions.{
  Peers, Topics, Subscriptions, topics_of, at_bus, add_peer_subscription, add_prefixes, drop_prefix,
  drop_prefixes, leave_topics, remove_all, drop_all,
}
use volttron_core.PubSub.Subscriptions.Laws.{contains-noted, get_or-leave_topics}

abbrev pub NonEmpty : Peers → Type 0
NonEmpty peers = is_empty peers ≡ false

abbrev pub IsWellFormed : Subscriptions → Type 0
IsWellFormed = Each (Each (Each NonEmpty))

pub topics_of-Each :
    (platform bus : String) (subs : Subscriptions)
    → IsWellFormed subs
    → Each NonEmpty (topics_of platform bus subs)
unfolding topics_of
topics_of-Each platform bus subs h =
    Each-get_or (Each NonEmpty) bus (get_or platform subs []) [] tt
      (Each-get_or (Each (Each NonEmpty)) platform subs [] tt h)

pub at_bus-IsWellFormed :
    (platform bus : String) (f : Topics → Topics) (subs : Subscriptions)
    → Each NonEmpty (f (topics_of platform bus subs))
    → IsWellFormed subs
    → IsWellFormed (at_bus platform bus f subs)
unfolding at_bus topics_of
at_bus-IsWellFormed platform bus f subs p h =
    Each-update (Each (Each NonEmpty)) platform [] (update bus [] f) subs
      (Each-update (Each NonEmpty) bus [] f (get_or platform subs []) p
        (Each-get_or (Each (Each NonEmpty)) platform subs [] tt h))
      h

append-NonEmpty : (peer : Value) (peers : Peers) → is_empty (peers ++ peer ∷ []) ≡ false
append-NonEmpty peer [] = refl
append-NonEmpty peer (q ∷ peers) = refl

pub add-NonEmpty : (peer : Value) (peers : Peers) → is_empty (add peer peers) ≡ false
unfolding add contains
add-NonEmpty peer [] = refl
add-NonEmpty peer (q ∷ peers) = ground (arith, append-NonEmpty peer (q ∷ peers))

pub add_peer_subscription-IsWellFormed :
    (peer : Value) (bus prefix platform : String) (subs : Subscriptions)
    → IsWellFormed subs
    → IsWellFormed (add_peer_subscription peer bus prefix platform subs)
unfolding add_peer_subscription
add_peer_subscription-IsWellFormed peer bus prefix platform subs h =
    let topics = topics_of platform bus subs in
    at_bus-IsWellFormed platform bus (update prefix [] (add peer)) subs
      (Each-update NonEmpty prefix [] (add peer) topics
        (add-NonEmpty peer (get_or prefix topics [])) (topics_of-Each platform bus subs h))
      h

-- SUBSCRIBE keeps the invariant.
pub add_prefixes-IsWellFormed :
    (peer : Value) (bus platform : String) (prefixes : List String) (subs : Subscriptions)
    → IsWellFormed subs
    → IsWellFormed (add_prefixes peer bus prefixes platform subs)
unfolding add_prefixes
add_prefixes-IsWellFormed peer bus platform [] subs h = h
add_prefixes-IsWellFormed peer bus platform (prefix ∷ prefixes) subs h =
    add_prefixes-IsWellFormed peer bus platform prefixes _
      (add_peer_subscription-IsWellFormed peer bus prefix platform subs h)

pub drop_prefixes-Each :
    (peer : Value) (prefixes : List String) (topics : Topics)
    → Each NonEmpty topics
    → Each NonEmpty (drop_prefixes peer prefixes topics)
unfolding drop_prefixes drop_prefix
drop_prefixes-Each peer [] topics h = h
drop_prefixes-Each peer (prefix ∷ prefixes) topics h =
    drop_prefixes-Each peer prefixes (drop_prefix peer prefix topics) (
      ground (
        arith,
        Each-remove NonEmpty prefix topics h,
        Each-insert NonEmpty prefix (discard peer (get_or prefix topics [])) topics,
      ))

remove_all-Each :
    (C : Peers → Type 0) (noted : List String) (topics : Topics)
    → Each C topics
    → Each C (remove_all noted topics)
unfolding remove_all
remove_all-Each C [] topics h = h
remove_all-Each C (topic ∷ noted) topics h =
    remove_all-Each C noted (remove topic topics) (Each-remove C topic topics h)

lookup-remove_all :
    (noted : List String) (x : String) (topics : Topics)
    → lookup x (remove_all noted topics) ≡ (if contains x noted then none else lookup x topics)
unfolding remove_all contains
lookup-remove_all [] x topics = refl
lookup-remove_all (topic ∷ noted) x topics =
    ground (arith, lookup-remove_all noted x (remove topic topics), lookup-remove topic x topics)

-- A dictionary with each key once, whatever its values.
abbrev Anything : Peers → Type 0
Anything peers = Unit

has-leave_topics :
    (peer : Value) (x : String) (topics : Topics)
    → has x (leave_topics peer topics).0 ≡ has x topics
unfolding leave_topics has
has-leave_topics peer x [] = refl
has-leave_topics peer x ((topic, peers) ∷ topics) = ground (arith, has-leave_topics peer x topics)

leave_topics-Each :
    (peer : Value) (topics : Topics)
    → Each NonEmpty topics
    → Each Anything (leave_topics peer topics).0
unfolding leave_topics
leave_topics-Each peer [] h = tt
leave_topics-Each peer ((topic, peers) ∷ topics) h =
    (rw (has-leave_topics peer topic topics) h.0, tt, leave_topics-Each peer topics h.2)

pub drop_all-Each :
    (peer : Value) (topics : Topics) → Each NonEmpty topics → Each NonEmpty (drop_all peer topics)
unfolding drop_all
drop_all-Each peer topics h =
    let left = (leave_topics peer topics).0 in
    let noted = (leave_topics peer topics).1 in
    Each-pointwise Anything NonEmpty (remove_all noted left)
      (remove_all-Each Anything noted left (leave_topics-Each peer topics h))
      λ x peers e.
        unfold get_or has in
        ground (
          arith,
          lookup-remove_all noted x left,
          has-leave_topics peer x topics,
          get_or-leave_topics peer x topics,
          contains-noted NonEmpty peer x topics h,
        )
