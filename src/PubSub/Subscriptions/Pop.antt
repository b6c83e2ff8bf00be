-- ===== src/PubSub/Subscriptions/Pop.antt =====
-- The second and third parts of `_sync`: the noted paths are popped, the other items are added.
use text.Mathlib.TextEquality.{eq_iff}
use volttron_core.Prelude.{
  String, ◌≡◌, ◌⊎◌, refl, ◌&&◌, ◌||◌, none, some, List, [], ◌∷◌, arith, ◌==◌, contains, count,
  string_eq, pair_eq, if◌then◌else◌, beq_refl,
}
use volttron_core.Py.Dict.{
  Each, get_or, remove, update, Each-remove, Each-update, Each-get_or, lookup-remove,
}
use volttron_core.Py.Result.{ok}
use volttron_core.Py.Value.{Value, value_eq}
use volttron_core.PubSub.Subscriptions.{
  Peers, Subscriptions, Item, topics_of, at_bus, pop_item, pop_items, add_items,
  add_peer_subscription,
}
use volttron_core.PubSub.Subscriptions.Laws.{
  is_subscribed, topics_of-at_bus, is_subscribed-add_peer_subscription,
}
use volttron_core.PubSub.Subscriptions.WellFormed.{IsWellFormed, add_peer_subscription-IsWellFormed}
use volttron_core.PubSub.Subscriptions.Visit.{at_path}

-- Every dictionary of the nest has each key once.
abbrev pub Anything : Peers → Type 0
Anything peers = Unit

abbrev pub IsUnique : Subscriptions → Type 0
IsUnique = Each (Each (Each Anything))

-- The state after a pop that finds an empty set.
abbrev popped : Item → Subscriptions → Subscriptions
popped (platform, (bus, prefix)) subs = at_bus platform bus (remove prefix) subs

pop_item-ok :
    (item : Item) (subs : Subscriptions)
    → at_path item subs ≡ some []
    → pop_item item subs ≡ ok (popped item subs)
unfolding pop_item at_path
pop_item-ok (platform, (bus, prefix)) subs e = ground arith

at_path-popped :
    (item other : Item) (subs : Subscriptions)
    → at_path other (popped item subs) ≡ (if item == other then none else at_path other subs)
unfolding at_path
at_path-popped (platform, (bus, prefix)) (p, (b, x)) subs = ground (
  arith,
  topics_of-at_bus platform bus p b (remove prefix) subs,
  lookup-remove prefix x (topics_of platform bus subs),
  eq_iff platform p,
  eq_iff bus b,
)

popped-IsUnique : (item : Item) (subs : Subscriptions) → IsUnique subs → IsUnique (popped item subs)
unfolding at_bus
popped-IsUnique (platform, (bus, prefix)) subs h =
    let inside = Each-get_or (Each (Each Anything)) platform subs [] tt h in
    Each-update (Each (Each Anything)) platform [] (update bus [] (remove prefix)) subs
      (Each-update (Each Anything) bus [] (remove prefix) (get_or platform subs [])
        (Each-remove Anything prefix _
          (Each-get_or (Each Anything) bus (get_or platform subs []) [] tt inside))
        inside)
      h

-- Each noted path is noted once, and its set is empty.
abbrev pub IsPoppable : List Item → Subscriptions → Type 0
IsPoppable removed subs =
    (item : Item)
    → (count item removed ≡ 0) ⊎ ((count item removed ≡ 1) × (at_path item subs ≡ some []))

IsPoppable-tail :
    (item : Item) (removed : List Item) (subs : Subscriptions)
    → IsPoppable (item ∷ removed) subs
    → IsPoppable removed (popped item subs)
unfolding count
IsPoppable-tail item removed subs h other = ground (arith, h other, at_path-popped item other subs)

head_is_empty :
    (item : Item) (removed : List Item) (subs : Subscriptions)
    → IsPoppable (item ∷ removed) subs
    → at_path item subs ≡ some []
unfolding count
head_is_empty item removed subs h = ground (arith, h item, beq_refl item)

-- The pops raise nothing: the noted paths are gone, all others are as they were.
pub pop_items-ok :
    (removed : List Item) (subs : Subscriptions)
    → IsUnique subs
    → IsPoppable removed subs
    → (subs' : Subscriptions) × (pop_items removed subs ≡ ok subs')
      × IsUnique subs'
      × ((item : Item)
          → at_path item subs' ≡ (if contains item removed then none else at_path item subs))
unfolding pop_items contains
pop_items-ok [] subs u h = (subs, refl, u, λ item. refl)
pop_items-ok (item ∷ removed) subs u h =
    let (subs', e, u', at) =
      pop_items-ok removed (popped item subs) (popped-IsUnique item subs u)
        (IsPoppable-tail item removed subs h) in
    (
      subs',
      rw (pop_item-ok item subs (head_is_empty item removed subs h)) e,
      u',
      λ other. ground (arith, at other, at_path-popped item other subs),
    )

pub is_subscribed-add_items :
    (peer q : Value) (p b x : String) (items : List Item) (subs : Subscriptions)
    → is_subscribed q p b x (add_items peer items subs)
      ≡ (contains (p, (b, x)) items && peer == q || is_subscribed q p b x subs)
unfolding add_items contains
is_subscribed-add_items peer q p b x [] subs = refl
is_subscribed-add_items peer q p b x ((platform, (bus, prefix)) ∷ items) subs = ground (
  arith,
  is_subscribed-add_items peer q p b x items (add_peer_subscription peer bus prefix platform subs),
  is_subscribed-add_peer_subscription peer q bus b prefix x platform p subs,
)

pub add_items-IsWellFormed :
    (peer : Value) (items : List Item) (subs : Subscriptions)
    → IsWellFormed subs
    → IsWellFormed (add_items peer items subs)
unfolding add_items
add_items-IsWellFormed peer [] subs h = h
add_items-IsWellFormed peer ((platform, (bus, prefix)) ∷ items) subs h =
    add_items-IsWellFormed peer items _
      (add_peer_subscription-IsWellFormed peer bus prefix platform subs h)
