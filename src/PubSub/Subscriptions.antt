-- ===== src/PubSub/Subscriptions.antt =====
-- `_peer_subscriptions` of `PubSubService` and the methods that change it:
-- subscriptions[platform][bus][prefix] is the set of the peers that subscribe.
pub mod Laws
pub mod WellFormed
pub mod Unsubscribe
pub mod Visit
pub mod Pop
pub mod Sync
use volttron_core.Prelude.{
  String, Bool, true, false, Option, none, some, List, [], ◌∷◌, ◌++◌, contains, discard, add,
  is_empty, pair_eq, string_eq, if◌then◌else◌,
}
use volttron_core.Py.Dict.{Dict, lookup, get_or, insert, remove, keys, update}
use volttron_core.Py.Dict.Traverse.{traverse}
use volttron_core.Py.Value.{Value, value_eq}
use volttron_core.Py.Result.{Result, ok, raised, key_error, assertion_error, ◌>>=◌}

abbrev pub Peers : Type 0
Peers = List Value

abbrev pub Topics : Type 0
Topics = Dict Peers

abbrev pub Buses : Type 0
Buses = Dict Topics

abbrev pub Subscriptions : Type 0
Subscriptions = Dict Buses

-- (platform, bus, prefix)
abbrev pub Item : Type 0
Item = String × (String × String)

unfoldable pub topics_of : String → String → Subscriptions → Topics
topics_of platform bus subs = get_or bus (get_or platform subs []) []

unfoldable pub subscribers : String → String → String → Subscriptions → Peers
subscribers platform bus prefix subs = get_or prefix (topics_of platform bus subs) []

-- `self._peer_subscriptions[platform][bus]` is the very dictionary that the method changes.
unfoldable pub at_bus : String → String → (Topics → Topics) → Subscriptions → Subscriptions
at_bus platform bus f = update platform [] (update bus [] f)

unfoldable pub add_peer_subscription :
    Value → String → String → String → Subscriptions → Subscriptions
add_peer_subscription peer bus prefix platform = at_bus platform bus (update prefix [] (add peer))

-- The loop of `_peer_subscribe` over the prefixes.
unfoldable pub add_prefixes : Value → String → List String → String → Subscriptions → Subscriptions
add_prefixes peer bus [] platform subs = subs
add_prefixes peer bus (prefix ∷ prefixes) platform subs =
    add_prefixes peer bus prefixes platform (add_peer_subscription peer bus prefix platform subs)

-- One prefix of `_peer_unsubscribe`: a set that is left empty goes.
unfoldable pub drop_prefix : Value → String → Topics → Topics
drop_prefix peer prefix topics =
    let left = discard peer (get_or prefix topics []) in
    if is_empty left then remove prefix topics else insert prefix left topics

unfoldable pub drop_prefixes : Value → List String → Topics → Topics
drop_prefixes peer [] topics = topics
drop_prefixes peer (prefix ∷ prefixes) topics =
    drop_prefixes peer prefixes (drop_prefix peer prefix topics)

-- The loop over all topics of a bus, for a prefix that is `None`: the peer leaves every set, and
-- the topics whose set is then empty are noted.
unfoldable pub leave_topics : Value → Topics → Topics × List String
leave_topics peer [] = ([], [])
leave_topics peer ((topic, peers) ∷ topics) =
    let left = discard peer peers in
    let (topics', noted) = leave_topics peer topics in
    ((topic, left) ∷ topics', if is_empty left then topic ∷ noted else noted)

unfoldable pub remove_all : List String → Topics → Topics
remove_all [] topics = topics
remove_all (topic ∷ noted) topics = remove_all noted (remove topic topics)

unfoldable pub drop_all : Value → Topics → Topics
drop_all peer topics = let (topics', noted) = leave_topics peer topics in remove_all noted topics'

-- A prefix of a request: `None`, one text, or a list of texts.
pub data Prefix : Type 0 where
  every : Prefix
  these : List String → Prefix

unfoldable pub unsubscribe_topics : Value → Prefix → Topics → Topics
unsubscribe_topics peer every topics = drop_all peer topics
unsubscribe_topics peer (these prefixes) topics = drop_prefixes peer prefixes topics

unfoldable pub unsubscribe : Value → String → String → Prefix → Subscriptions → Subscriptions
unsubscribe peer platform bus prefix = at_bus platform bus (unsubscribe_topics peer prefix)

-- What the loops of `_sync` change besides the sets: the items not yet met, and `remove`.
abbrev pub Pending : Type 0
Pending = List Item × List Item

unfoldable pub visit : Value → String → String → String → Peers → Pending → Peers × Pending
visit peer platform bus prefix peers (items, removed) =
    let item : Item = (platform, (bus, prefix)) in
    let left = discard peer peers in
    if contains item items
    then (add peer peers, (discard item items, removed))
    else (left, (items, if is_empty left then removed ++ item ∷ [] else removed))

unfoldable pub visit_all : Value → Subscriptions → Pending → Subscriptions × Pending
visit_all peer =
    traverse λ platform. traverse λ bus. traverse λ prefix. visit peer platform bus prefix

-- `assert not subscriptions.pop(prefix)`
unfoldable pub pop_item : Item → Subscriptions → Result Subscriptions
pop_item (platform, (bus, prefix)) subs = elim (lookup prefix (topics_of platform bus subs)) [
  | none ↦ raised key_error
  | some peers ↦
      if is_empty peers
      then ok (at_bus platform bus (remove prefix) subs)
      else raised assertion_error
]

unfoldable pub pop_items : List Item → Subscriptions → Result Subscriptions
pop_items [] subs = ok subs
pop_items (item ∷ removed) subs = do subs' ← pop_item item subs; pop_items removed subs'

unfoldable pub add_items : Value → List Item → Subscriptions → Subscriptions
add_items peer [] subs = subs
add_items peer ((platform, (bus, prefix)) ∷ items) subs =
    add_items peer items (add_peer_subscription peer bus prefix platform subs)

-- `_sync`, but for the message to the external platforms.
unfoldable pub sync : Value → List Item → Subscriptions → Result Subscriptions
sync peer items subs =
    let (subs', (rest, removed)) = visit_all peer subs (items, []) in
    do subs'' ← pop_items removed subs'; ok (add_items peer rest subs'')
