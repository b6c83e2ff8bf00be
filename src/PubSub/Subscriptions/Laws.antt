-- ===== src/PubSub/Subscriptions/Laws.antt =====
-- What the operations on the subscriptions mean, for each peer and each path of the nest.
use text.Mathlib.TextEquality.{eq_iff}
use volttron_core.Prelude.{
  String, ◌≡◌, refl, Bool, true, false, not, ◌&&◌, ◌||◌, List, [], ◌∷◌, arith, ◌==◌, contains,
  discard, add, is_empty, contains-add, contains-discard, string_eq, if◌then◌else◌,
}
use volttron_core.Py.Dict.{
  Each, get_or, remove, update, has, get_or-insert, get_or-remove, get_or-update,
}
use volttron_core.Py.Value.{Value, value_eq}
use volttron_core.PubSub.Subscriptions.{
  Peers, Topics, Subscriptions, topics_of, subscribers, at_bus, add_peer_subscription, add_prefixes,
  drop_prefix, drop_prefixes, leave_topics, remove_all, drop_all, Prefix, every, these,
}

abbrev pub is_subscribed : Value → String → String → String → Subscriptions → Bool
is_subscribed peer platform bus prefix subs = contains peer (subscribers platform bus prefix subs)

pub subscribers_lem :
    (platform bus prefix : String) (subs : Subscriptions)
    → subscribers platform bus prefix subs ≡ get_or prefix (topics_of platform bus subs) []
unfolding subscribers
subscribers_lem platform bus prefix subs = refl

pub contains-nil : (peer : Value) → contains peer [] ≡ false
unfolding contains
contains-nil peer = refl

pub topics_of-at_bus :
    (platform bus p b : String) (f : Topics → Topics) (subs : Subscriptions)
    → topics_of p b (at_bus platform bus f subs)
      ≡ (if platform == p && bus == b then f (topics_of platform bus subs) else topics_of p b subs)
unfolding topics_of at_bus
topics_of-at_bus platform bus p b f subs = ground (
  arith,
  get_or-update platform p [] (update bus [] f) subs,
  get_or-update bus b [] f (get_or platform subs []),
  eq_iff platform p,
  eq_iff bus b,
)

-- The set of one path is changed, and no other.
pub subscribers-at_bus :
    (platform bus p b x : String) (f : Topics → Topics) (subs : Subscriptions)
    → subscribers p b x (at_bus platform bus f subs) ≡ (
        if platform == p && bus == b
        then get_or x (f (topics_of platform bus subs)) []
        else subscribers p b x subs)
unfolding subscribers
subscribers-at_bus platform bus p b x f subs =
    ground (arith, topics_of-at_bus platform bus p b f subs)

pub is_empty-contains :
    (q : Value) (peers : Peers) → is_empty peers ≡ true → contains q peers ≡ false
unfolding contains
is_empty-contains q [] h = refl
is_empty-contains q (peer ∷ peers) h = cc

abbrev pub same_path : String → String → String → String → String → String → Bool
same_path platform bus prefix p b x = platform == p && (bus == b && prefix == x)

pub is_subscribed-add_peer_subscription :
    (peer q : Value) (bus b prefix x platform p : String) (subs : Subscriptions)
    → is_subscribed q p b x (add_peer_subscription peer bus prefix platform subs)
      ≡ (same_path platform bus prefix p b x && peer == q || is_subscribed q p b x subs)
unfolding add_peer_subscription
is_subscribed-add_peer_subscription peer q bus b prefix x platform p subs =
    let topics = topics_of platform bus subs in
    ground (
      arith,
      subscribers-at_bus platform bus p b x (update prefix [] (add peer)) subs,
      get_or-update prefix x [] (add peer) topics,
      contains-add peer q (get_or prefix topics []),
      subscribers_lem p b x subs,
      eq_iff platform p,
      eq_iff bus b,
      eq_iff prefix x,
    )

pub is_subscribed-add_prefixes :
    (peer q : Value) (bus b x platform p : String) (prefixes : List String) (subs : Subscriptions)
    → is_subscribed q p b x (add_prefixes peer bus prefixes platform subs) ≡ (
        platform == p && (bus == b && contains x prefixes) && peer == q
        || is_subscribed q p b x subs)
unfolding add_prefixes contains
is_subscribed-add_prefixes peer q bus b x platform p [] subs = ground arith
is_subscribed-add_prefixes peer q bus b x platform p (prefix ∷ prefixes) subs =
    let subs' = add_peer_subscription peer bus prefix platform subs in
    ground (
      arith,
      is_subscribed-add_prefixes peer q bus b x platform p prefixes subs',
      is_subscribed-add_peer_subscription peer q bus b prefix x platform p subs,
    )

contains-drop_prefix :
    (peer q : Value) (prefix x : String) (topics : Topics)
    → contains q (get_or x (drop_prefix peer prefix topics) [])
      ≡ (not (prefix == x && peer == q) && contains q (get_or x topics []))
unfolding drop_prefix
contains-drop_prefix peer q prefix x topics =
    let old = get_or prefix topics [] in
    ground (
      arith,
      get_or-insert prefix x (discard peer old) [] topics,
      get_or-remove prefix x [] topics,
      contains-discard peer q old,
      is_empty-contains q (discard peer old),
      eq_iff prefix x,
    )

pub contains-drop_prefixes :
    (peer q : Value) (prefixes : List String) (x : String) (topics : Topics)
    → contains q (get_or x (drop_prefixes peer prefixes topics) [])
      ≡ (not (contains x prefixes && peer == q) && contains q (get_or x topics []))
unfolding drop_prefixes contains
contains-drop_prefixes peer q [] x topics = refl
contains-drop_prefixes peer q (prefix ∷ prefixes) x topics = ground (
  arith,
  contains-drop_prefixes peer q prefixes x (drop_prefix peer prefix topics),
  contains-drop_prefix peer q prefix x topics,
)

get_or-remove_all :
    (noted : List String) (x : String) (topics : Topics)
    → get_or x (remove_all noted topics) [] ≡ (if contains x noted then [] else get_or x topics [])
unfolding remove_all contains
get_or-remove_all [] x topics = refl
get_or-remove_all (topic ∷ noted) x topics =
    ground (arith, get_or-remove_all noted x (remove topic topics), get_or-remove topic x [] topics)

pub get_or-leave_topics :
    (peer : Value) (x : String) (topics : Topics)
    → get_or x (leave_topics peer topics).0 [] ≡ discard peer (get_or x topics [])
unfolding leave_topics get_or discard
get_or-leave_topics peer x [] = refl
get_or-leave_topics peer x ((topic, peers) ∷ topics) =
    ground (arith, get_or-leave_topics peer x topics)

-- The noted topics are those whose set is left empty; a dictionary has each key once.
pub contains-noted :
    (C : Peers → Type 0) (peer : Value) (x : String) (topics : Topics)
    → Each C topics
    → contains x (leave_topics peer topics).1
      ≡ (has x topics && is_empty (discard peer (get_or x topics [])))
unfolding leave_topics get_or has contains
contains-noted C peer x [] u = refl
contains-noted C peer x ((topic, peers) ∷ topics) u =
    ground (arith, contains-noted C peer x topics u.2, eq_iff topic x)

pub contains-drop_all :
    (C : Peers → Type 0) (peer q : Value) (x : String) (topics : Topics)
    → Each C topics
    → contains q (get_or x (drop_all peer topics) [])
      ≡ (not (peer == q) && contains q (get_or x topics []))
unfolding drop_all
contains-drop_all C peer q x topics u =
    let old = get_or x topics [] in
    ground (
      arith,
      get_or-remove_all (leave_topics peer topics).1 x (leave_topics peer topics).0,
      get_or-leave_topics peer x topics,
      contains-noted C peer x topics u,
      contains-discard peer q old,
      is_empty-contains q (discard peer old),
    )

-- The prefixes that an unsubscribe request names.
abbrev pub names : Prefix → String → Bool
names every x = true
names (these prefixes) x = contains x prefixes
