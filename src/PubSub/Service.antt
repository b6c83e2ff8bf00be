-- ===== src/PubSub/Service.antt =====
-- `PubSubService`: its state, and the delivery of a published message to the subscribers.
-- `_rabbitmq_agent` is `None` throughout.
pub mod Invariant
use text.Mathlib.Text.{starts_with}
use volttron_core.Prelude.{
  ℕ, String, Bool, true, false, Option, none, some, List, [], ◌∷◌, ◌++◌, contains, add, union,
  is_empty, length, if◌then◌else◌, string_eq, not, ◌&&◌,
}
use volttron_core.Py.Dict.{Dict, lookup, insert, remove, get_or, has, keys}
use volttron_core.Py.Exec.{Exec, pure, raise, lift, gets, modify, ◌>>=◌, ◌>>◌}
use volttron_core.Py.Result.{
  Result, ok, raised, Errno, host_unreachable, again, other_errno, key_error, value_error,
  type_error,
}
use volttron_core.Py.Value.{
  Value, ℤ, pos, null, int, str, list, dict, to_items, to_fields, value_eq,
}
use volttron_core.Py.Access.{get_item, nth, set, as_text}
use volttron_core.Wire.{
  Frames, Outcome, delivered, failed, unsupported, Socket, Wire, send_multipart, error_number,
  error_text,
}
use volttron_core.PubSub.Subscriptions.{
  Peers, Topics, Buses, Subscriptions, Item, topics_of, at_bus, sync,
}
use volttron_core.PubSub.Protected.{Protected}
use volttron_core.PubSub.Protected

-- What the service asks of the `RoutingService`: `my_instance_name`, `get_connected_platforms`.
pub record ExtRouter : Type 0 where
  pub instance_name : String
  pub connected : List String

pub record Service : Type 0 where
  pub subscriptions : Subscriptions
  pub user_capabilities : Dict (List String)
  pub protected_topics : Protected
  pub ext_subscriptions : Dict (List String)
  pub ext_router : Option ExtRouter
  pub wire : Wire
  -- the calls of `_ext_router.send_external`, oldest first
  pub external : List (Value × Frames)

-- What the service does not implement: the socket, Python's `re`, `json.dumps`, and `str.format`
-- of the message for a topic, the capabilities that it requires and those that the user has.
pub record Env : Type 0 where
  pub socket : Socket
  pub matches : String → String → Bool
  pub dumps : Value → String
  pub denial : String → List String → List String → String
  -- `ClientContext.get_instance_name()`
  pub instance_name : String

unfoldable pub init : Protected → Option ExtRouter → Service
init protected router = record {
  subscriptions = [];
  user_capabilities = [];
  protected_topics = protected;
  ext_subscriptions = [];
  ext_router = router;
  wire = [];
  external = [];
}

abbrev pub Action {ℓ} : Type ℓ → Type ℓ
Action A = Exec Service A

abbrev pub texts : List String → List Value
texts [] = []
texts (s ∷ ss) = str s ∷ texts ss

-- `_get_external_prefix_list`
unfoldable pub prefix_list : Buses → List String
prefix_list [] = []
prefix_list ((bus, topics) ∷ buses) = keys topics ++ prefix_list buses

unfoldable pub get_external_prefix_list : Subscriptions → List String
get_external_prefix_list subs = prefix_list (get_or "all" subs [])

unfoldable pub external_sends : List String → Frames → List (Value × Frames)
external_sends [] frames = []
external_sends (name ∷ names) frames = (str name, frames) ∷ external_sends names frames

-- proto, user_id, msg_id, subsystem = frames[2:6]
unfoldable pub frames_2_6 : Frames → Result (Value × Value × Value × Value)
frames_2_6 (_ ∷ _ ∷ a ∷ b ∷ c ∷ d ∷ rest) = ok (a, b, c, d)
frames_2_6 _ = raised value_error

module _ (env : Env) where
  -- `_send_external_subscriptions`, to the platforms given
  unfoldable pub send_external_subscriptions : ExtRouter → List String → Service → Service
  send_external_subscriptions router platforms s =
      let prefixes = list (to_items (texts (get_external_prefix_list s.subscriptions))) in
      let msg = env.dumps (dict (to_fields ((router.instance_name, prefixes) ∷ []))) in
      let frames =
        str "" ∷ str "VIP1" ∷ str "" ∷ str "" ∷ str "pubsub" ∷ str "external_list" ∷ str msg ∷ [] in
      record s { external = s.external ++ external_sends platforms frames }

  -- the same to all connected platforms, if there is a routing service
  unfoldable pub announce : Service → Service
  announce s = elim s.ext_router [
    | none ↦ s
    | some router ↦ send_external_subscriptions router router.connected s
  ]

  -- `_sync`
  unfoldable pub sync_peer : Value → List Item → Action (Unit {0})
  sync_peer peer items s = elim (sync peer items s.subscriptions) [
    | raised e ↦ (raised e, s)
    | ok subs ↦
        let s' = record s { subscriptions = subs } in
        (ok tt, if has "all" subs then announce s' else s')
  ]

  unfoldable pub peer_drop : Value → Action (Unit {0})
  peer_drop peer = sync_peer peer []

  -- `self._vip_sock.send_multipart(frames, ...)`
  unfoldable pub attempt : Bool → Frames → Action Outcome
  attempt serialized frames s =
      let (outcome, wire) = send_multipart env.socket serialized frames s.wire in
      (ok outcome, record s { wire = wire })

  -- `except ZMQError: pass`
  unfoldable pub replied : Outcome → Action (List Value)
  replied unsupported = raise type_error
  replied _ = pure []

  -- `_send` after the socket has answered: the dropped recipients. The error frames to the
  -- publisher are tried once, and are not serialized.
  unfoldable pub sent : Frames → Value → Value → Outcome → Action (List Value)
  sent frames publisher subscriber delivered = pure []
  sent frames publisher subscriber (failed host_unreachable) = pure (subscriber ∷ [])
  sent frames publisher subscriber (failed again) = do
    header ← lift (frames_2_6 frames)
    let (proto, user_id, msg_id, subsystem) = header
    let reply =
        publisher
        ∷ str ""
        ∷ proto
        ∷ user_id
        ∷ msg_id
        ∷ str "error"
        ∷ str (error_number again)
        ∷ str (error_text again)
        ∷ subscriber
        ∷ subsystem
        ∷ []
    outcome ← attempt false reply
    replied outcome
  sent frames publisher subscriber (failed other_errno) = pure []
  sent frames publisher subscriber unsupported = raise type_error

  -- `_send`
  unfoldable pub send : Frames → Value → Action (List Value)
  send frames publisher = do
    subscriber ← lift (nth frames 0)
    outcome ← attempt true frames
    sent frames publisher subscriber outcome

  -- `for sub in self._send(frames, publisher): self.peer_drop(sub)`
  unfoldable pub drop_peers : List Value → Action (Unit {0})
  drop_peers [] = pure tt
  drop_peers (peer ∷ peers) = do peer_drop peer; drop_peers peers

  -- The loop of `_distribute_internal` over the subscribers. The frames are one list that the loop
  -- changes, so they come back.
  unfoldable pub deliver : List Value → Value → Frames → Action Frames
  deliver [] publisher frames = pure frames
  deliver (subscriber ∷ rest) publisher frames = do
    let frames' = set frames 0 subscriber
    dropped ← send frames' publisher
    drop_peers dropped
    deliver rest publisher frames'

-- `subs.update(all_subscriptions); subs.update(subscriptions)`
unfoldable pub merge : Topics → Topics → Topics
merge subs [] = subs
merge subs ((prefix, peers) ∷ topics) = merge (insert prefix peers subs) topics

-- `subscribers |= subscription` for each prefix of the topic
unfoldable pub matching : String → Topics → Peers → Peers
matching topic [] acc = acc
matching topic ((prefix, peers) ∷ subs) acc =
    matching topic subs
      (if not (is_empty peers) && starts_with topic prefix then union acc peers else acc)

-- The subscribers of a topic on a bus, as `_distribute_internal` computes them.
unfoldable pub local_subscribers : String → String → Subscriptions → Peers
unfolding merge matching
local_subscribers bus topic subs =
    matching topic (merge (merge [] (topics_of "all" bus subs)) (topics_of "internal" bus subs)) []

-- Reading `self._peer_subscriptions[platform][bus]` makes the entries.
unfoldable pub read_bus : String → String → Subscriptions → Subscriptions
read_bus platform bus = at_bus platform bus (λ topics. topics)

-- `try: ... except KeyError: return default`
abbrev pub on_key_error {ℓ} : {A : Type ℓ} → Result A → Action A → Action A
on_key_error (raised key_error) handler s = handler s
on_key_error r handler s = (r, s)
