-- ===== src/PubSub/Sending.antt =====
-- What `_distribute_internal` of `PubSubService` sends.
use mathlib.Core.List.{append_assoc, append-nil}
use text.Mathlib.Text.{starts_with}
use text.Mathlib.TextEquality.{eq_iff}
use volttron_core.Prelude.{
  String, ◌≡◌, ◌∙◌, refl, true, List, [], ◌∷◌, ◌++◌, arith, string_eq, contains, Distinct,
  Distinct-add, union, add, length, Bool-cases, inl, inr, is_empty, ◌&&◌, not,
}
use volttron_core.Py.Dict.{get_or-update, get_or, update}
use volttron_core.Py.Exec.{pure, modify, ◌>>=◌}
use volttron_core.Py.Result.{ok}
use volttron_core.Py.Value.{Value, str, value_eq}
use volttron_core.Py.Access.{get_item, nth, set, as_text}
use volttron_core.Wire.{Frames, Attempt, delivered, send_multipart}
use volttron_core.PubSub.Subscriptions.{Subscriptions, Topics, Peers, topics_of, at_bus}
use volttron_core.PubSub.Subscriptions.WellFormed.{IsWellFormed}
use volttron_core.PubSub.Delivery.{counts, local_subscribers_exact}
use volttron_core.PubSub.Service.{
  Service, Env, send, sent, attempt, drop_peers, deliver, matching, merge, local_subscribers,
  read_bus,
}
use volttron_core.PubSub.Publish.{bus_of, deliver_on, distribute_internal}

topics_of-read_bus :
    (platform bus p b : String) (subs : Subscriptions)
    → topics_of p b (read_bus platform bus subs) ≡ topics_of p b subs
unfolding topics_of read_bus at_bus
topics_of-read_bus platform bus p b subs = ground (
  arith,
  get_or-update platform p [] (update bus [] (λ topics. topics)) subs,
  get_or-update bus b [] (λ topics. topics) (get_or platform subs []),
  eq_iff platform p,
  eq_iff bus b,
)

local_subscribers-read_bus :
    (platform bus topic : String) (subs : Subscriptions)
    → local_subscribers bus topic (read_bus platform bus subs) ≡ local_subscribers bus topic subs
unfolding local_subscribers
local_subscribers-read_bus platform bus topic subs =
    rw
      (
        topics_of-read_bus platform bus "all" bus subs,
        topics_of-read_bus platform bus "internal" bus subs,
      )
      refl

union-Distinct : (xs ys : Peers) → Distinct xs → Distinct (union xs ys)
unfolding union
union-Distinct xs [] d = d
union-Distinct xs (y ∷ ys) d = union-Distinct (add y xs) ys (Distinct-add y xs d)

matching-Distinct :
    (topic : String) (subs : Topics) (acc : Peers)
    → Distinct acc
    → Distinct (matching topic subs acc)
unfolding matching
matching-Distinct topic [] acc d = d
matching-Distinct topic ((prefix, peers) ∷ subs) acc d =
    elim (Bool-cases (not (is_empty peers) && starts_with topic prefix)) [
      | inl wanted ↦
          rw wanted (matching-Distinct topic subs (union acc peers) (union-Distinct acc peers d))
      | inr other ↦ rw other (matching-Distinct topic subs acc d)
    ]

local_subscribers-Distinct :
    (bus topic : String) (subs : Subscriptions) → Distinct (local_subscribers bus topic subs)
unfolding local_subscribers
local_subscribers-Distinct bus topic subs =
    matching-Distinct topic
      (merge (merge [] (topics_of "all" bus subs)) (topics_of "internal" bus subs)) [] tt

-- The message to each of the peers, in this order, all of which arrive.
abbrev pub sends : List Value → Frames → List Attempt
sends [] tail = []
sends (peer ∷ peers) tail =
    record { serialized = true; frames = peer ∷ tail; outcome = delivered } ∷ sends peers tail

-- The loop leaves the last peer in front of the frames.
abbrev pub last_or : Value → List Value → Value
last_or v [] = v
last_or v (peer ∷ peers) = last_or peer peers

-- The socket takes every serialized message.
abbrev pub Delivers : Env → Type 0
Delivers env = (wire : List Attempt) (frames : Frames) → env.socket wire true frames ≡ delivered

module _ (env : Env) (delivers : Delivers env) where
  deliver-sends :
      (peers : List Value) (publisher first : Value) (tail : Frames) (s : Service)
      → deliver env peers publisher (first ∷ tail) s
        ≡ (ok (last_or first peers ∷ tail), record s { wire = s.wire ++ sends peers tail })
  unfolding deliver set send nth attempt send_multipart sent drop_peers ◌>>=◌ pure
  deliver-sends [] publisher first tail s = rw (append-nil s.wire) refl
  deliver-sends (peer ∷ peers) publisher first tail s =
      let one : Attempt = record { serialized = true; frames = peer ∷ tail; outcome = delivered } in
      rw
        (
          delivers s.wire (peer ∷ tail),
          deliver-sends peers publisher peer tail (record s { wire = s.wire ++ one ∷ [] }),
          append_assoc s.wire (one ∷ []) (sends peers tail),
        )
        refl

  -- If the socket delivers every message, a published message is sent once to each of the
  -- peers that have a subscription that counts to a prefix of its topic, to nobody else, and with
  -- the frames of the publisher after the name of the peer; the count is that of these peers, and
  -- nothing else of the service changes but that the bus has entries. The subscriptions are well
  -- formed before.
  pub distribute_internal_exact :
      (publisher receiver proto uid msg_id subsystem op payload : Value) (topic bus : String)
      (rest : Frames) (s : Service)
      → IsWellFormed s.subscriptions
      → get_item payload "bus" ≡ ok (str bus)
      → let tail : Frames =
          receiver ∷ proto ∷ uid ∷ msg_id ∷ subsystem ∷ op ∷ str topic ∷ payload ∷ rest in
        (peers : List Value) × (distribute_internal env (publisher ∷ tail) s ≡ (
          ok (length peers, last_or publisher peers ∷ tail),
          record s {
            subscriptions = read_bus "internal" bus (read_bus "all" bus s.subscriptions);
            wire = s.wire ++ sends peers tail;
          },
        ))
        × Distinct peers
        × ((q : Value)
            → (contains q peers ≡ true
                → (x : String) × (starts_with topic x ≡ true)
                  × (counts q bus x s.subscriptions ≡ true))
              × ((x : String)
                  → starts_with topic x ≡ true
                  → counts q bus x s.subscriptions ≡ true
                  → contains q peers ≡ true))
  unfolding distribute_internal deliver_on bus_of nth as_text modify ◌>>=◌
  distribute_internal_exact publisher receiver proto uid msg_id subsystem op payload topic bus rest
        s h on_bus =
      let tail : Frames =
        receiver ∷ proto ∷ uid ∷ msg_id ∷ subsystem ∷ op ∷ str topic ∷ payload ∷ rest in
      let peers = local_subscribers bus topic s.subscriptions in
      let read = read_bus "internal" bus (read_bus "all" bus s.subscriptions) in
      let same : local_subscribers bus topic read ≡ peers =
        local_subscribers-read_bus "internal" bus topic (read_bus "all" bus s.subscriptions)
        ∙ local_subscribers-read_bus "all" bus topic s.subscriptions in
      (
        peers,
        rw
            (
              bus_of,
              on_bus,
              same,
              deliver-sends peers publisher publisher tail (record s { subscriptions = read }),
            )
            refl,
        local_subscribers-Distinct bus topic s.subscriptions,
        λ q. local_subscribers_exact q bus topic s.subscriptions h,
      )
