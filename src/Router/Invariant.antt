-- ===== src/Router/Invariant.antt =====
-- The router's invariant under every message: `_peers` is a set, and the subscriptions are well
-- formed.
use volttron_core.Prelude.{
  true, Option, none, some, List, [], ◌∷◌, add, Distinct, Distinct-add, Distinct-discard,
}
use volttron_core.Py.Exec.{Exec, modify}
use volttron_core.Py.Keeps.{
  Keeps, keeps_rules, Keeps-guard, Keeps-lift, Keeps-raise, Keeps-pure, Keeps-if, Keeps-bind,
  Keeps-then,
}
use volttron_core.Py.Result.{Result, raised, index_error, keyboard_interrupt}
use volttron_core.Py.Value.{Value, value_eq}
use volttron_core.Wire.{Frames}
use volttron_core.PubSub.Subscriptions.WellFormed.{IsWellFormed}
use volttron_core.PubSub.Service.{Service}
use volttron_core.PubSub.Service.Invariant as Service
use volttron_core.PubSub.Soundness.{handle_subsystem-IsWellFormed}
use volttron_core.PubSub.Handler as Handler
use volttron_core.PubSub.Handler.{Response}
use volttron_core.Router.State.{Router, Step, Platform, Notice, on_service}
use volttron_core.Router.Peers.{notify, forget_peer, drop_peer, add_peer}
use volttron_core.Router.Subsystems.{
  handle_subsystem, or_log, logged, agentstop, quit, query, some_response,
}
use volttron_core.Router.Route.{
  Header, Incoming, probe, too_few_frames, bad_signature, message, answer, outgoing,
  drop_unreachable, transmit, read_frames, route_read, route,
}
use volttron_core.Router.Steady.{Steady, send-Keeps, drop_peer-Keeps, distribute-Keeps}

-- No peer is listed twice, and in the subscriptions no key is repeated and no set is empty.
pub record IsConsistent (r : Router) : Type 0 where
  pub peers_distinct : Distinct r.peers
  pub subscriptions_sound : IsWellFormed r.service.subscriptions

pub Keeps-on_service {ℓ} :
    {A : Type ℓ} (m : Exec Service A) → Keeps Service.IsSound m → Keeps IsConsistent (on_service m)
unfolding on_service
Keeps-on_service m k = record {
  at = λ r h. record {
    peers_distinct = h.peers_distinct;
    subscriptions_sound = k.at r.service h.subscriptions_sound;
  };
}

pub Keeps-peers :
    (f : Router → Router)
    → ((r : Router) → Distinct r.peers → Distinct (f r).peers)
    → ((r : Router)
        → IsWellFormed r.service.subscriptions
        → IsWellFormed (f r).service.subscriptions)
    → Keeps IsConsistent (modify f)
unfolding modify
Keeps-peers f distinct sound = record {
  at = λ r h. record {
    peers_distinct = distinct r h.peers_distinct;
    subscriptions_sound = sound r h.subscriptions_sound;
  };
}

module _ (env : Platform) where
  notify-IsConsistent : (notice : Notice) → Keeps IsConsistent (notify notice)
  unfolding notify
  notify-IsConsistent notice = Keeps-peers _ (λ r h. h) (λ r h. h)

  pub steady : Steady env IsConsistent
  unfolding forget_peer
  steady = record {
    kept_by_attempt = λ serialized frames.
        Keeps-on_service _ (Service.attempt-IsSound env.pubsub_env serialized frames);
    kept_by_peer_drop = λ peer. Keeps-on_service _ (Service.peer_drop-IsSound env.pubsub_env peer);
    kept_by_forget = λ peer. Keeps-peers _ (λ r h. Distinct-discard peer r.peers h) (λ r h. h);
    kept_by_notify = notify-IsConsistent;
  }

  -- The services that are parameters keep the invariant.
  pub record ServicesKeep : Type 0 where
    pub close_keeps : Keeps IsConsistent env.close_external_connections
    pub routing_table_keeps : (frames : Frames) → Keeps IsConsistent (env.routing_table frames)
    pub external_rpc_keeps : (frames : Frames) → Keeps IsConsistent (env.external_rpc frames)

  drop_peer-IsConsistent : (peer : Value) → Keeps IsConsistent (drop_peer env peer)
  drop_peer-IsConsistent peer = drop_peer-Keeps env IsConsistent steady peer

  entered-IsConsistent :
      (peer : Value) → Keeps IsConsistent (modify λ r. record r { peers = add peer r.peers })
  entered-IsConsistent peer = Keeps-peers _ (λ r. Distinct-add peer r.peers) (λ r h. h)

  pub add_peer-IsConsistent : (peer : Value) → Keeps IsConsistent (add_peer env peer)
  unfolding add_peer
  add_peer-IsConsistent peer =
      search
        (
          keeps_rules,
          Keeps-guard,
          distribute-Keeps env IsConsistent steady,
          entered-IsConsistent,
          notify-IsConsistent,
        )
        depth 12

  or_log-IsConsistent : (m : Step (Unit {0})) → Keeps IsConsistent m → Keeps IsConsistent (or_log m)
  unfolding or_log logged
  or_log-IsConsistent m k = record { at = λ r h. settled (m r) (k.at r h) }
    where
      settled : (o : Result (Unit {0}) × Router) → IsConsistent o.1 → IsConsistent (logged o).1
      settled (raised index_error, r) h = h
      settled (o, r) h = h

  agentstop-IsConsistent : (frames : Frames) → Keeps IsConsistent (agentstop env frames)
  unfolding agentstop
  agentstop-IsConsistent frames = Keeps-bind _ _ (search keeps_rules) λ drop.
      Keeps-then _ _ (drop_peer-IsConsistent drop)
        (Keeps-then _ _ (steady.kept_by_peer_drop drop) (notify-IsConsistent _))

  query-IsConsistent : (frames : Frames) → Keeps IsConsistent (query env frames)
  unfolding query
  query-IsConsistent frames = search keeps_rules

  pubsub-IsConsistent :
      (frames : Frames) (user_id : Value)
      → Keeps IsConsistent (on_service (Handler.handle_subsystem env.pubsub_env frames user_id))
  pubsub-IsConsistent frames user_id =
      Keeps-on_service _
        (record { at = handle_subsystem-IsWellFormed env.pubsub_env frames user_id })

  some_response-IsConsistent :
      (m : Step Response) → Keeps IsConsistent m → Keeps IsConsistent (some_response env m)
  unfolding some_response
  some_response-IsConsistent m k = search keeps_rules

  drop_unreachable-IsConsistent :
      (peers : List Value) → Keeps IsConsistent (drop_unreachable env peers)
  unfolding drop_unreachable
  drop_unreachable-IsConsistent [] = search keeps_rules
  drop_unreachable-IsConsistent (peer ∷ peers) =
      Keeps-then _ _ (drop_peer-IsConsistent peer) (drop_unreachable-IsConsistent peers)

  transmit-IsConsistent : (frames : Option Frames) → Keeps IsConsistent (transmit env frames)
  unfolding transmit
  transmit-IsConsistent none = search keeps_rules
  transmit-IsConsistent (some frames) =
      Keeps-bind _ _ (send-Keeps env IsConsistent steady frames) drop_unreachable-IsConsistent

  closed-IsConsistent : Keeps IsConsistent (modify λ r. record r { closed = true })
  closed-IsConsistent = Keeps-peers _ (λ r h. h) (λ r h. h)

  module _ (services : ServicesKeep) where
    quit-IsConsistent : (frames : Frames) → Keeps IsConsistent (quit env frames)
    unfolding quit
    quit-IsConsistent frames = Keeps-bind _ _ (Keeps-lift _) λ sender.
        Keeps-if _ _ _
          (Keeps-then _ _ services.close_keeps
            (Keeps-then _ _ closed-IsConsistent (Keeps-raise keyboard_interrupt)))
          (Keeps-pure none)

    handle_subsystem-IsConsistent :
        (frames : Frames) (user_id : Value)
        → Keeps IsConsistent (handle_subsystem env frames user_id)
    unfolding handle_subsystem
    handle_subsystem-IsConsistent frames user_id =
        search
          (
            keeps_rules, quit-IsConsistent, or_log-IsConsistent, agentstop-IsConsistent,
            query-IsConsistent, some_response-IsConsistent, pubsub-IsConsistent,
            services.routing_table_keeps, services.external_rpc_keeps,
          )
          depth 20

    answer-IsConsistent : (h : Header) → Keeps IsConsistent (answer env h)
    unfolding answer
    answer-IsConsistent h = search (keeps_rules, handle_subsystem-IsConsistent) depth 15

    outgoing-IsConsistent : (h : Header) → Keeps IsConsistent (outgoing env h)
    unfolding outgoing
    outgoing-IsConsistent h = search (keeps_rules, answer-IsConsistent)

    route_read-IsConsistent : (incoming : Incoming) → Keeps IsConsistent (route_read env incoming)
    unfolding route_read
    route_read-IsConsistent (probe peer) = add_peer-IsConsistent peer
    route_read-IsConsistent too_few_frames = search keeps_rules
    route_read-IsConsistent bad_signature = search keeps_rules
    route_read-IsConsistent (message h) =
        Keeps-then _ _ (add_peer-IsConsistent h.sender)
          (Keeps-bind _ _ (outgoing-IsConsistent h) transmit-IsConsistent)

-- Whatever message is routed, whatever the socket answers, and also when `route` raises: the peers
-- stay distinct and the subscriptions well formed, if the services for routing tables and external
-- calls keep that.
pub route-IsConsistent :
    (env : Platform)
    → ServicesKeep env
    → (frames : Frames) (r : Router) → IsConsistent r
    → IsConsistent (route env frames r).1
unfolding route
route-IsConsistent env services frames r h =
    (route_read-IsConsistent env services (read_frames frames)).at r h
