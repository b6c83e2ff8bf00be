-- ===== src/PubSub/Subscriptions/Sync.antt =====
-- `_sync`: after it a peer is subscribed to exactly the items that it names.
use volttron_core.Prelude.{
  ℕ, String, ◌≡◌, ◌⊎◌, refl, Bool, true, false, not, ◌&&◌, ◌||◌, Option, none, some, List, [], ◌∷◌,
  arith, ◌==◌, contains, discard, count, is_empty, inl, string_eq, nat_eq, pair_eq, if◌then◌else◌,
  contains-discard, contains-add, sym, ◌∙◌,
}
use volttron_core.Py.Dict.{Each, get_or, Each-lookup, Each-pointwise, get_or-eq}
use volttron_core.Py.Dict.Traverse.{Each-traverse}
use volttron_core.Py.Result.{ok}
use volttron_core.Py.Value.{Value, value_eq}
use volttron_core.PubSub.Subscriptions.{
  Peers, Subscriptions, Item, Pending, topics_of, subscribers, visit_all, add_items, sync,
}
use volttron_core.PubSub.Subscriptions.Laws.{is_subscribed, is_empty-contains}
use volttron_core.PubSub.Subscriptions.WellFormed.{NonEmpty, IsWellFormed, add-NonEmpty}
use volttron_core.PubSub.Subscriptions.Visit.{
  at_path, after, moved, still_pending, times_noted, in_subscriptions,
}
use volttron_core.PubSub.Subscriptions.Pop.{
  Anything, IsUnique, pop_items-ok, is_subscribed-add_items, add_items-IsWellFormed,
}

-- `contains` at a path that may lead nowhere.
abbrev has_peer : Value → Option Peers → Bool
has_peer q none = false
has_peer q (some peers) = contains q peers

is_subscribed-at_path :
    (q : Value) (p b x : String) (subs : Subscriptions)
    → is_subscribed q p b x subs ≡ has_peer q (at_path (p, (b, x)) subs)
unfolding subscribers at_path get_or contains
is_subscribed-at_path q p b x subs = ground arith

visit_all-IsUnique :
    (peer : Value) (subs : Subscriptions) (s : Pending)
    → IsWellFormed subs
    → IsUnique (visit_all peer subs s).0
unfolding visit_all
visit_all-IsUnique peer subs s =
    Each-traverse (Each (Each NonEmpty)) (Each (Each Anything)) _
      (λ p.
        Each-traverse (Each NonEmpty) (Each Anything) _
          (λ b. Each-traverse NonEmpty Anything _ (λ x v t h. tt)))
      subs s

IsWellFormed-at_path :
    (subs : Subscriptions)
    → IsUnique subs
    → ((p b x : String) (peers : Peers) → at_path (p, (b, x)) subs ≡ some peers → NonEmpty peers)
    → IsWellFormed subs
unfolding at_path topics_of
IsWellFormed-at_path subs u all =
    Each-pointwise (Each (Each Anything)) (Each (Each NonEmpty)) subs u λ p buses e.
      Each-pointwise (Each Anything) (Each NonEmpty) buses (Each-lookup _ p buses subs u e)
        λ b topics f.
          Each-pointwise Anything NonEmpty topics
            (Each-lookup _ b topics buses (Each-lookup _ p buses subs u e) f)
            λ x peers g.
              all p b x peers (rw (get_or-eq p [] buses subs e, get_or-eq b [] topics buses f) g)

is_empty-nil : (peers : Peers) → is_empty peers ≡ true → peers ≡ []
is_empty-nil [] h = refl
is_empty-nil (q ∷ peers) h = cc

poppable :
    (peer : Value) (m : Bool) (n : ℕ) (o o' : Option Peers)
    → n ≡ times_noted peer m o
    → o' ≡ after peer m o
    → (n ≡ 0) ⊎ ((n ≡ 1) × (o' ≡ some []))
unfolding times_noted after moved
poppable peer m n none o' e f = inl e
poppable peer m n (some peers) o' e f = ground (arith, is_empty-nil (discard peer peers))

contains-count :
    (item : Item) (items : List Item) → contains item items ≡ not (count item items == 0)
unfolding contains count
contains-count item [] = refl
contains-count item (x ∷ items) = ground (arith, contains-count item items)

-- What is left at a path after the loops and the pops.
abbrev left_at : Value → Bool → Option Peers → Option Peers
left_at peer m o = if times_noted peer m o == 0 then after peer m o else none

left_at-NonEmpty :
    (peer : Value) (m : Bool) (o : Option Peers) (peers : Peers)
    → left_at peer m o ≡ some peers
    → NonEmpty peers
unfolding times_noted after moved
left_at-NonEmpty peer m none peers e = cc
left_at-NonEmpty peer m (some old) peers e = ground (arith, add-NonEmpty peer old)

has_peer-left_at :
    (peer q : Value) (m : Bool) (o : Option Peers)
    → (still_pending peer m o && peer == q || has_peer q (left_at peer m o))
      ≡ (if peer == q then m else has_peer q o)
unfolding still_pending times_noted after moved
has_peer-left_at peer q m none = ground arith
has_peer-left_at peer q m (some old) = ground (
  arith,
  contains-add peer q old,
  contains-discard peer q old,
  is_empty-contains q (discard peer old),
)

at_end_of :
    (peer : Value) (m : Bool) (item : Item) (removed : List Item) (o o₁ o₂ : Option Peers)
    → count item removed ≡ times_noted peer m o
    → o₁ ≡ after peer m o
    → o₂ ≡ (if contains item removed then none else o₁)
    → o₂ ≡ left_at peer m o
at_end_of peer m item removed o o₁ o₂ c e f = ground (arith, contains-count item removed)

-- `_sync` raises nothing, keeps the invariant, subscribes the peer to exactly the items, and
-- leaves the other peers as they were.
pub sync_exact :
    (peer : Value) (items : List Item) (subs : Subscriptions)
    → IsWellFormed subs
    → (subs' : Subscriptions) × (sync peer items subs ≡ ok subs')
      × IsWellFormed subs'
      × ((q : Value) (p b x : String)
          → is_subscribed q p b x subs'
            ≡ (if peer == q then contains (p, (b, x)) items else is_subscribed q p b x subs))
unfolding sync
sync_exact peer items subs h =
    let (subs₁, (rest, removed)) = visit_all peer subs (items, []) in
    let at = λ (p b x : String).
      in_subscriptions peer p b x (contains (p, (b, x)) items) NonEmpty subs
        (at_path (p, (b, x)) subs) (items, []) h refl (refl, unfold count in refl) in
    let (subs₂, e, u, after_pops) =
      pop_items-ok removed subs₁ (visit_all-IsUnique peer subs (items, []) h) λ (p, (b, x)).
        poppable peer (contains (p, (b, x)) items) (count (p, (b, x)) removed)
          (at_path (p, (b, x)) subs) _ (at p b x).1.1 (at p b x).0 in
    let at_end : (p b x : String)
        → at_path (p, (b, x)) subs₂
          ≡ left_at peer (contains (p, (b, x)) items) (at_path (p, (b, x)) subs) =
      λ p b x.
        at_end_of peer (contains (p, (b, x)) items) (p, (b, x)) removed (at_path (p, (b, x)) subs) _
          _ (at p b x).1.1 (at p b x).0 (after_pops (p, (b, x))) in
    (
      add_items peer rest subs₂,
      rw e,
      add_items-IsWellFormed peer rest subs₂ (
          IsWellFormed-at_path subs₂ u λ p b x peers f.
            left_at-NonEmpty peer _ (at_path (p, (b, x)) subs) peers (sym (at_end p b x) ∙ f)),
      λ q p b x.
          is_subscribed-add_items peer q p b x rest subs₂
          ∙ rw
              (
                (at p b x).1.0,
                is_subscribed-at_path q p b x subs₂,
                at_end p b x,
                is_subscribed-at_path q p b x subs,
              )
              (has_peer-left_at peer q (contains (p, (b, x)) items) (at_path (p, (b, x)) subs)),
    )
