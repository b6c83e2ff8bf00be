-- ===== src/PubSub/Subscriptions/Unsubscribe.antt =====
-- `_peer_unsubscribe` on the subscriptions: who is subscribed afterwards, and the invariant.
use text.Mathlib.TextEquality.{eq_iff}
use volttron_core.Prelude.{String, ◌≡◌, not, ◌&&◌, [], arith, ◌==◌, contains, string_eq}
use volttron_core.Py.Dict.{Each, get_or}
use volttron_core.Py.Value.{Value, value_eq}
use volttron_core.PubSub.Subscriptions.{
  Topics, Subscriptions, topics_of, Prefix, every, these, unsubscribe_topics, unsubscribe,
}
use volttron_core.PubSub.Subscriptions.Laws.{
  is_subscribed, names, subscribers-at_bus, subscribers_lem, contains-drop_prefixes,
  contains-drop_all,
}
use volttron_core.PubSub.Subscriptions.WellFormed.{
  NonEmpty, IsWellFormed, topics_of-Each, at_bus-IsWellFormed, drop_prefixes-Each, drop_all-Each,
}

contains-unsubscribe_topics :
    (peer q : Value) (prefix : Prefix) (x : String) (topics : Topics)
    → Each NonEmpty topics
    → contains q (get_or x (unsubscribe_topics peer prefix topics) [])
      ≡ (not (names prefix x && peer == q) && contains q (get_or x topics []))
unfolding unsubscribe_topics
contains-unsubscribe_topics peer q every x topics h = contains-drop_all NonEmpty peer q x topics h
contains-unsubscribe_topics peer q (these prefixes) x topics h =
    contains-drop_prefixes peer q prefixes x topics

unsubscribe_topics-Each :
    (peer : Value) (prefix : Prefix) (topics : Topics)
    → Each NonEmpty topics
    → Each NonEmpty (unsubscribe_topics peer prefix topics)
unfolding unsubscribe_topics
unsubscribe_topics-Each peer every topics h = drop_all-Each peer topics h
unsubscribe_topics-Each peer (these prefixes) topics h = drop_prefixes-Each peer prefixes topics h

-- UNSUBSCRIBE takes the peer out of the sets of the named prefixes, and changes nothing else.
pub is_subscribed-unsubscribe :
    (peer q : Value) (platform p bus b x : String) (prefix : Prefix) (subs : Subscriptions)
    → IsWellFormed subs
    → is_subscribed q p b x (unsubscribe peer platform bus prefix subs) ≡ (
        not (platform == p && (bus == b && names prefix x) && peer == q)
        && is_subscribed q p b x subs)
unfolding unsubscribe
is_subscribed-unsubscribe peer q platform p bus b x prefix subs h =
    let topics = topics_of platform bus subs in
    ground (
      arith,
      subscribers-at_bus platform bus p b x (unsubscribe_topics peer prefix) subs,
      contains-unsubscribe_topics peer q prefix x topics (topics_of-Each platform bus subs h),
      subscribers_lem p b x subs,
      eq_iff platform p,
      eq_iff bus b,
    )

-- UNSUBSCRIBE keeps the invariant.
pub unsubscribe-IsWellFormed :
    (peer : Value) (platform bus : String) (prefix : Prefix) (subs : Subscriptions)
    → IsWellFormed subs
    → IsWellFormed (unsubscribe peer platform bus prefix subs)
unfolding unsubscribe
unsubscribe-IsWellFormed peer platform bus prefix subs h =
    at_bus-IsWellFormed platform bus (unsubscribe_topics peer prefix) subs
      (unsubscribe_topics-Each peer prefix (topics_of platform bus subs)
        (topics_of-Each platform bus subs h))
      h
