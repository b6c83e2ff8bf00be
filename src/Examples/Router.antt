-- ===== src/Examples/Router.antt =====
-- The router at concrete inputs.
use volttron_core.Prelude.{◌≡◌, refl, false, some, [], ◌∷◌, arith, contains, string_eq}
use volttron_core.Py.Exec.{pure, raise}
use volttron_core.Py.Keeps.{Keeps-pure}
use volttron_core.Py.Result.{ok, host_unreachable, assertion_error}
use volttron_core.Py.Value.{null, str, truthy, is_null, value_eq}
use volttron_core.Wire.{failed}
use volttron_core.PubSub.Service.{Env}
use volttron_core.PubSub.Handler.{refused}
use volttron_core.Router.State.{Router, Platform}
use volttron_core.Router.Peers.{hashable, drop_peer, drop_peer_within}
use volttron_core.Router.Route.{Header, route}
use volttron_core.Router.Invariant.{IsConsistent, ServicesKeep}
use volttron_core.Router.Termination.{drop_peer_within_enough}
use volttron_core.Router.Forgotten.{drop_peer-IsGone}
use volttron_core.Router.Forwarding.{route_delivered, received, carried}
use volttron_core.Examples.PubSub.{alice, bob, calm, service, store-IsWellFormed}

abbrev platform : Env → Platform
platform env = record {
  pubsub_env = env;
  same_object = λ a b. false;
  identity = str "router";
  settings = record {
    addresses = [];
    local_address = str "ipc://router";
    serverkey = null;
    volttron_central_address = null;
    volttron_central_serverkey = null;
    instance_name = str "here";
    bind_web_address = null;
    message_bus = str "zmq";
    agent_monitor_frequency = null;
  };
  close_external_connections = pure tt;
  routing_table = λ frames. pure (some refused);
  external_rpc = λ frames. pure (some refused);
}

-- Nobody can be reached.
abbrev storm : Env
storm = record calm { socket = λ wire serialized frames. failed host_unreachable }

abbrev router : Router
router = record { peers = alice ∷ bob ∷ []; service = service; notices = []; closed = false }

router-IsConsistent : IsConsistent router
unfolding contains
router-IsConsistent = record {
  peers_distinct = (refl, (refl, tt));
  subscriptions_sound = store-IsWellFormed;
}

services : ServicesKeep (platform storm)
services = record {
  close_keeps = Keeps-pure tt;
  routing_table_keeps = λ frames. Keeps-pure _;
  external_rpc_keeps = λ frames. Keeps-pure _;
}

abbrev greeting : Header
greeting = record {
  sender = alice;
  recipient = bob;
  proto = str "VIP1";
  auth_token = str "";
  msg_id = str "1";
  subsystem = str "RPC";
  args = str "hi" ∷ [];
}

drop_peer_within_enough_example :
    drop_peer_within (platform storm) (raise assertion_error) 3 alice router
    ≡ drop_peer (platform storm) alice router
drop_peer_within_enough_example =
    drop_peer_within_enough (platform storm) (raise assertion_error) 3 alice router (omega arith)

drop_peer-IsGone_example : contains alice (drop_peer (platform storm) alice router).1.peers ≡ false
unfolding hashable
drop_peer-IsGone_example = drop_peer-IsGone (platform storm) alice router refl

route_delivered_example :
    route (platform calm) (received (platform calm) greeting router) router
    ≡ (ok tt, carried (platform calm) greeting router)
unfolding hashable contains truthy is_null
route_delivered_example =
    route_delivered (platform calm) greeting router refl refl refl refl refl refl
