-- ===== src/Router/State.antt =====
-- The fields of `BaseRouter` and `Router` that routing reads and writes.
use volttron_core.Prelude.{Bool, Option, List}
use volttron_core.Py.Exec.{Exec}
use volttron_core.Py.Value.{Value}
use volttron_core.Wire.{Frames}
use volttron_core.PubSub.Service.{Service, Env}
use volttron_core.PubSub.Handler.{Response}

-- What the `ServicePeerNotifier` was told.
pub data Notice : Type 0 where
  peer_added : Value → Notice
  peer_dropped : Value → Notice

-- `_peers`, `pubsub` with the socket that it shares with the router, the calls of
-- `_service_notifier`, and whether `stop` has closed the socket.
pub record Router : Type 0 where
  pub peers : List Value
  pub service : Service
  pub notices : List Notice
  pub closed : Bool

abbrev pub Step {ℓ} : Type ℓ → Type ℓ
Step A = Exec Router A

-- What `query` reads: the addresses, the keys and the names of the platform.
pub record Settings : Type 0 where
  pub addresses : List Value
  pub local_address : Value
  pub serverkey : Value
  pub volttron_central_address : Value
  pub volttron_central_serverkey : Value
  pub instance_name : Value
  pub bind_web_address : Value
  pub message_bus : Value
  pub agent_monitor_frequency : Value

-- What the router uses and does not implement: Python's `is` for two frames of one message, the
-- identity of the socket, and the services for routing tables and external calls.
pub record Platform : Type 0 where
  pub pubsub_env : Env
  pub same_object : Value → Value → Bool
  pub identity : Value
  pub settings : Settings
  pub close_external_connections : Step (Unit {0})
  pub routing_table : Frames → Step (Option Response)
  pub external_rpc : Frames → Step (Option Response)

-- A method of the pubsub service, called by the router.
unfoldable pub on_service {ℓ} : {A : Type ℓ} → Exec Service A → Step A
on_service m r = let (result, service) = m r.service in (result, record r { service = service })
