-- ===== src/PubSub/Subscriptions/Visit.antt =====
-- The loops of `_sync` over all subscriptions, seen from one path.
use volttron_core.Prelude.{
  ℕ, String, ◌≡◌, ◌≢◌, refl, sym, ap, Bool, false, Option, none, some, [], arith, contains, discard,
  add, count, is_empty, Option-cases, inl, inr, string_eq, pair_eq, if◌then◌else◌, contains-discard,
  ◌∙◌, count-append_one, beq_ne, beq_refl,
}
use volttron_core.Py.Dict.{
  Each, lookup, get_or, Each-lookup, lookup-eq-none, has-eq-false, get_or-eq, get_or-missing,
}
use volttron_core.Py.Dict.Traverse.{
  traverse, traverse_keep, traverse_keep_all, traverse_rule, has-traverse,
}
use volttron_core.Py.Value.{Value, value_eq}
use volttron_core.PubSub.Subscriptions.{
  Peers, Topics, Buses, Subscriptions, Item, Pending, topics_of, visit, visit_all,
}

-- The set at a path, if there is one.
unfoldable pub at_path : Item → Subscriptions → Option Peers
unfolding topics_of
at_path (platform, (bus, prefix)) subs = lookup prefix (topics_of platform bus subs)

-- What is pending for an item: whether it is still to be added, and how often to be removed.
abbrev pub Observed : Item → Bool → ℕ → Pending → Type 0
Observed item m n (items, removed) = (contains item items ≡ m) × (count item removed ≡ n)

module _ (peer : Value) where
  unfoldable pub moved : Bool → Peers → Peers
  moved m peers = if m then add peer peers else discard peer peers

  -- Where the path leads before, and what the loops leave there.
  unfoldable pub after : Bool → Option Peers → Option Peers
  unfolding moved
  after m none = none
  after m (some peers) = some (moved m peers)

  unfoldable pub still_pending : Bool → Option Peers → Bool
  still_pending m none = m
  still_pending m (some peers) = false

  unfoldable pub times_noted : Bool → Option Peers → ℕ
  times_noted m none = 0
  times_noted m (some peers) = if m then 0 else if is_empty (discard peer peers) then 1 else 0

module _ (peer : Value) (item : Item) where
  visit_other :
      (platform bus prefix : String) (m : Bool) (n : ℕ) (peers : Peers) (s : Pending)
      → ◌≢◌ {A = Item} (platform, (bus, prefix)) item
      → Observed item m n s
      → Observed item m n (visit peer platform bus prefix peers s).1
  unfolding visit
  visit_other platform bus prefix m n peers (items, removed) ne h =
      let other : Item = (platform, (bus, prefix)) in
      ground (
        arith,
        beq_ne other item ne,
        contains-discard other item items,
        count-append_one item other removed,
      )

module _ (peer : Value) (p b x : String) (m : Bool) where
  abbrev item : Item
  item = (p, (b, x))

  abbrev Final : Option Peers → Pending → Type 0
  Final o = Observed item (still_pending peer m o) (times_noted peer m o)

  abbrev Start : Pending → Type 0
  Start = Observed item m 0

  visit_same :
      (peers : Peers) (s : Pending)
      → Start s
      → ((visit peer p b x peers s).0 ≡ moved peer m peers)
        × Final (some peers) (visit peer p b x peers s).1
  unfolding visit moved still_pending times_noted
  visit_same peers (items, removed) h =
      ground
        (arith, beq_refl item, contains-discard item item items, count-append_one item item removed)

  in_prefixes :
      (C : Peers → Type 0) (topics : Topics) (o : Option Peers) (s : Pending)
      → Each C topics
      → lookup x topics ≡ o
      → Start s
      → (lookup x (traverse (visit peer p b) topics s).0 ≡ after peer m o)
        × Final o (traverse (visit peer p b) topics s).1
  unfolding after still_pending times_noted
  in_prefixes C topics none s u e h = (
    lookup-eq-none x _ (has-traverse x (visit peer p b) topics s ∙ has-eq-false x topics e),
    traverse_keep Start x (visit peer p b)
        (λ j v t ne g. visit_other peer item p b j m 0 v t (λ q. ne (ap (λ (i : Item). i.1.1) q)) g)
        topics s (has-eq-false x topics e) h,
  )
  in_prefixes C topics (some peers) s u e h =
      let (s', h', e', f) =
        traverse_rule Start (Final (some peers)) x (visit peer p b) C
          (λ j v t ne g.
            visit_other peer item p b j m 0 v t (λ q. ne (ap (λ (i : Item). i.1.1) q)) g)
          (λ j v t ne g.
            visit_other peer item p b j false (times_noted peer m (some peers)) v t
              (λ q. ne (ap (λ (i : Item). i.1.1) q)) g)
          peers (λ t g. (visit_same peers t g).1) topics s u e h in
      (e' ∙ ap some (visit_same peers s' h').0, f)

  abbrev buses_loop : String → Buses → Pending → Buses × Pending
  buses_loop platform = traverse λ bus. traverse λ prefix. visit peer platform bus prefix

  -- A bus, or a platform, that is not on the path.
  other_bus :
      (platform bus : String) (k : Bool) (n : ℕ)
      → ((x' : String) → ◌≢◌ {A = Item} (platform, (bus, x')) item)
      → (topics : Topics) (s : Pending) → Observed item k n s
      → Observed item k n (traverse (visit peer platform bus) topics s).1
  other_bus platform bus k n ne =
      traverse_keep_all (Observed item k n) (visit peer platform bus)
        λ j v t. visit_other peer item platform bus j k n v t (ne j)

  other_platform :
      (platform : String) (k : Bool) (n : ℕ)
      → platform ≢ p
      → (buses : Buses) (s : Pending) → Observed item k n s
      → Observed item k n (buses_loop platform buses s).1
  other_platform platform k n ne =
      traverse_keep_all (Observed item k n) (λ bus. traverse (visit peer platform bus))
        λ j v t. other_bus platform j k n (λ x' q. ne (ap (λ (i : Item). i.0) q)) v t

  in_buses :
      (C : Peers → Type 0) (buses : Buses) (o : Option Peers) (s : Pending)
      → Each (Each C) buses
      → lookup x (get_or b buses []) ≡ o
      → Start s
      → (lookup x (get_or b (buses_loop p buses s).0 []) ≡ after peer m o)
        × Final o (buses_loop p buses s).1
  unfolding lookup
  in_buses C buses o s u e h = elim (Option-cases (lookup b buses)) [
    | inl absent ↦
        let gone : lookup b (buses_loop p buses s).0 ≡ none = lookup-eq-none b _ (
          has-traverse b (λ bus. traverse (visit peer p bus)) buses s
          ∙ has-eq-false b buses absent) in
        let nowhere : o ≡ none = sym e ∙ ap (lookup x) (get_or-missing b [] buses absent) in
        rw (nowhere, get_or-missing b [] _ gone)
          (unfold after still_pending times_noted lookup in
            (
              refl,
              traverse_keep Start b (λ bus. traverse (visit peer p bus))
                  (λ j v t ne g. other_bus p j m 0 (λ x' q. ne (ap (λ (i : Item). i.1.0) q)) v t g)
                  buses s (has-eq-false b buses absent) h,
            ))
    | inr (topics, found) ↦
        let here : lookup x topics ≡ o =
          ap (lookup x) (sym (get_or-eq b [] topics buses found)) ∙ e in
        let u' = Each-lookup (Each C) b topics buses u found in
        let (s', h', e', f) =
          traverse_rule Start (Final o) b (λ bus. traverse (visit peer p bus)) (Each C)
            (λ j v t ne g. other_bus p j m 0 (λ x' q. ne (ap (λ (i : Item). i.1.0) q)) v t g)
            (λ j v t ne g.
              other_bus p j (still_pending peer m o) (times_noted peer m o)
                (λ x' q. ne (ap (λ (i : Item). i.1.0) q)) v t g)
            topics (λ t g. (in_prefixes C topics o t u' here g).1) buses s u found h in
        (ap (lookup x) (get_or-eq b [] _ _ e') ∙ (in_prefixes C topics o s' u' here h').0, f)
  ]

  -- The loops of `_sync` at one path: the set there gains or loses the peer, as the path is in the
  -- items or not; the path is then pending no more, and is noted once if its set is left empty.
  pub in_subscriptions :
      (C : Peers → Type 0) (subs : Subscriptions) (o : Option Peers) (s : Pending)
      → Each (Each (Each C)) subs
      → at_path item subs ≡ o
      → Start s
      → (at_path item (visit_all peer subs s).0 ≡ after peer m o)
        × Final o (visit_all peer subs s).1
  unfolding at_path visit_all
  in_subscriptions C subs o s u e h = elim (Option-cases (lookup p subs)) [
    | inl absent ↦
        let gone : lookup p (visit_all peer subs s).0 ≡ none =
          lookup-eq-none p _ (has-traverse p buses_loop subs s ∙ has-eq-false p subs absent) in
        let nowhere : o ≡ none =
          sym e
          ∙ ap (λ (bs : Buses). lookup x (get_or b bs [])) (get_or-missing p [] subs absent)
          ∙ (unfold get_or in refl) in
        rw (nowhere, get_or-missing p [] _ gone)
          (unfold after still_pending times_noted get_or in
            (
              refl,
              traverse_keep Start p buses_loop (λ j v t ne g. other_platform j m 0 ne v t g) subs s
                  (has-eq-false p subs absent) h,
            ))
    | inr (buses, found) ↦
        let here : lookup x (get_or b buses []) ≡ o =
          ap (λ (bs : Buses). lookup x (get_or b bs [])) (sym (get_or-eq p [] buses subs found))
          ∙ e in
        let u' = Each-lookup (Each (Each C)) p buses subs u found in
        let (s', h', e', f) =
          traverse_rule Start (Final o) p buses_loop (Each (Each C))
            (λ j v t ne g. other_platform j m 0 ne v t g)
            (λ j v t ne g.
              other_platform j (still_pending peer m o) (times_noted peer m o) ne v t g)
            buses (λ t g. (in_buses C buses o t u' here g).1) subs s u found h in
        (
          ap (λ (bs : Buses). lookup x (get_or b bs [])) (get_or-eq p [] _ _ e')
              ∙ (in_buses C buses o s' u' here h').0,
          f,
        )
  ]
