-- ===== src/PubSub/Delivery.antt =====
-- Who is sent a published message: the subscribers that `_distribute_internal` computes, and the
-- check of `_distribute` that comes before.
use text.Mathlib.Text.{starts_with}
use text.Mathlib.TextEquality.{eq_iff}
use volttron_core.Prelude.{
  String, ◌≡◌, refl, sym, ◌∙◌, Bool, true, false, ◌&&◌, ◌||◌, [], ◌∷◌, arith, string_eq,
  if◌then◌else◌, contains, union, contains-union, Bool-cases, inl, inr,
}
use volttron_core.Py.Dict.{Each, lookup, has, get_or, insert, Each-insert, lookup-insert}
use volttron_core.Py.Value.{Value, value_eq}
use volttron_core.PubSub.Subscriptions.{Peers, Topics, Subscriptions, topics_of}
use volttron_core.PubSub.Subscriptions.Laws.{
  is_subscribed, is_empty-contains, subscribers_lem, contains-nil,
}
use volttron_core.PubSub.Subscriptions.WellFormed.{NonEmpty, IsWellFormed, topics_of-Each}
use volttron_core.PubSub.Service.{merge, matching, local_subscribers}

-- The peers of one entry count if the topic begins with its prefix.
abbrev matches : String → Value → Topics → Bool
matches topic q [] = false
matches topic q ((prefix, peers) ∷ subs) =
    starts_with topic prefix && contains q peers || matches topic q subs

contains-matching :
    (topic : String) (q : Value) (subs : Topics) (acc : Peers)
    → contains q (matching topic subs acc) ≡ (contains q acc || matches topic q subs)
unfolding matching
contains-matching topic q [] acc = ground arith
contains-matching topic q ((prefix, peers) ∷ subs) acc = ground (
  arith,
  contains-matching topic q subs acc,
  contains-matching topic q subs (union acc peers),
  contains-union q acc peers,
  is_empty-contains q peers,
)

-- An entry of the second dictionary hides the entry of the first under the same key.
lookup-merge :
    (x : String) (subs topics : Topics)
    → Each NonEmpty topics
    → lookup x (merge subs topics) ≡ (if has x topics then lookup x topics else lookup x subs)
unfolding merge has lookup
lookup-merge x subs [] h = refl
lookup-merge x subs ((prefix, peers) ∷ topics) h = ground (
  arith,
  lookup-merge x (insert prefix peers subs) topics h.2,
  lookup-insert prefix x peers subs,
  eq_iff prefix x,
)

merge-Each :
    (subs topics : Topics)
    → Each NonEmpty subs
    → Each NonEmpty topics
    → Each NonEmpty (merge subs topics)
unfolding merge
merge-Each subs [] h g = h
merge-Each subs ((prefix, peers) ∷ topics) h g =
    merge-Each (insert prefix peers subs) topics (Each-insert NonEmpty prefix peers subs g.1 h) g.2

matches-witness :
    (topic : String) (q : Value) (subs : Topics)
    → Each NonEmpty subs
    → matches topic q subs ≡ true
    → (x : String) × (starts_with topic x ≡ true) × (contains q (get_or x subs []) ≡ true)
unfolding get_or has
matches-witness topic q [] u h = cc
matches-witness topic q ((prefix, peers) ∷ subs) u h =
    elim (Bool-cases (starts_with topic prefix && contains q peers)) [
      | inl here ↦ (prefix, ground arith, ground (arith, eq_iff prefix prefix))
      | inr there ↦
          let (x, starts, member) = matches-witness topic q subs u.2 (ground arith) in
          (x, starts, ground (arith, eq_iff prefix x, contains-nil q))
    ]

matches-intro :
    (topic x : String) (q : Value) (subs : Topics)
    → starts_with topic x ≡ true
    → contains q (get_or x subs []) ≡ true
    → matches topic q subs ≡ true
unfolding get_or
matches-intro topic x q [] s c = cc (contains-nil q)
matches-intro topic x q ((prefix, peers) ∷ subs) s c =
    ground (arith, eq_iff prefix x, matches-intro topic x q subs s)

-- The subscription of a peer to a prefix that counts for the delivery on this platform: that of
-- the platform "internal" if the prefix has an entry there, or else that of "all".
abbrev pub counts : Value → String → String → Subscriptions → Bool
counts q bus x subs =
    if has x (topics_of "internal" bus subs)
    then is_subscribed q "internal" bus x subs
    else is_subscribed q "all" bus x subs

abbrev merged : String → Subscriptions → Topics
merged bus subs = merge (merge [] (topics_of "all" bus subs)) (topics_of "internal" bus subs)

merged-Each :
    (bus : String) (subs : Subscriptions) → IsWellFormed subs → Each NonEmpty (merged bus subs)
merged-Each bus subs h =
    merge-Each _ _ (merge-Each [] _ tt (topics_of-Each "all" bus subs h))
      (topics_of-Each "internal" bus subs h)

contains-merged :
    (q : Value) (bus x : String) (subs : Subscriptions)
    → IsWellFormed subs
    → contains q (get_or x (merged bus subs) []) ≡ counts q bus x subs
unfolding get_or has lookup
contains-merged q bus x subs h =
    let all = topics_of "all" bus subs in
    ground (
      arith,
      lookup-merge x (merge [] all) (topics_of "internal" bus subs)
          (topics_of-Each "internal" bus subs h),
      lookup-merge x [] all (topics_of-Each "all" bus subs h),
      subscribers_lem "internal" bus x subs,
      subscribers_lem "all" bus x subs,
      contains-nil q,
    )

contains-local_subscribers :
    (q : Value) (bus topic : String) (subs : Subscriptions)
    → contains q (local_subscribers bus topic subs) ≡ matches topic q (merged bus subs)
unfolding local_subscribers contains
contains-local_subscribers q bus topic subs = contains-matching topic q (merged bus subs) []

-- In well-formed subscriptions a message goes to a peer exactly when the topic begins with some
-- prefix for which a subscription of the peer counts.
pub local_subscribers_exact :
    (q : Value) (bus topic : String) (subs : Subscriptions)
    → IsWellFormed subs
    → (contains q (local_subscribers bus topic subs) ≡ true
        → (x : String) × (starts_with topic x ≡ true) × (counts q bus x subs ≡ true))
      × ((x : String)
          → starts_with topic x ≡ true
          → counts q bus x subs ≡ true
          → contains q (local_subscribers bus topic subs) ≡ true)
local_subscribers_exact q bus topic subs h = (
  λ c.
      let (x, starts, member) =
        matches-witness topic q (merged bus subs) (merged-Each bus subs h)
          (sym (contains-local_subscribers q bus topic subs) ∙ c) in
      (x, starts, sym (contains-merged q bus x subs h) ∙ member),
  λ x starts c.
      contains-local_subscribers q bus topic subs
      ∙ matches-intro topic x q (merged bus subs) starts (contains-merged q bus x subs h ∙ c),
)
