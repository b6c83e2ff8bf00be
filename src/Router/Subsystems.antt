-- ===== src/Router/Subsystems.antt =====
-- `Router.handle_subsystem`: the messages to the router for the subsystems that `route` does not
-- answer itself.
use volttron_core.Prelude.{
  ℕ, zero, suc, String, true, Option, none, some, [], ◌∷◌, ◌++◌, is_empty, if◌then◌else◌, string_eq,
  ◌==◌,
}
use volttron_core.Py.Exec.{pure, raise, lift, modify, ◌>>=◌, ◌>>◌}
use volttron_core.Py.Result.{
  Result, ok, raised, index_error, not_implemented_error, keyboard_interrupt,
}
use volttron_core.Py.Value.{Value, null, str, list, to_items, is_text}
use volttron_core.Py.Access.{nth, set}
use volttron_core.Wire.{Frames}
use volttron_core.PubSub.Service.{peer_drop}
use volttron_core.PubSub.Handler.{Response, refused, reply}
use volttron_core.PubSub.Handler as Handler
use volttron_core.Router.State.{Router, Step, Platform, Settings, peer_dropped, on_service}
use volttron_core.Router.Peers.{notify, drop_peer}

-- The value of a setting by its name.
unfoldable pub setting : Settings → String → Result Value
setting s name =
    if name == "addresses"
    then ok (list (to_items (if is_empty s.addresses then s.local_address ∷ [] else s.addresses)))
    else if name == "local_address"
    then ok s.local_address
    else if name == "serverkey"
    then ok s.serverkey
    else if name == "volttron-central-address"
    then ok s.volttron_central_address
    else if name == "volttron-central-serverkey"
    then ok s.volttron_central_serverkey
    else if name == "instance-name"
    then ok s.instance_name
    else if name == "bind-web-address"
    then ok s.bind_web_address
    else if name == "platform-version"
    then raised not_implemented_error
    else if name == "message-bus"
    then ok s.message_bus
    else if name == "agent-monitor-frequency"
    then ok s.agent_monitor_frequency
    else ok null

unfoldable pub query_value : Settings → Result Value → Result Value
query_value s (ok (str name)) = setting s name
query_value s _ = ok null

-- frames[:n]
unfoldable pub take_frames : ℕ → Frames → Frames
take_frames zero frames = []
take_frames (suc n) [] = []
take_frames (suc n) (frame ∷ frames) = frame ∷ take_frames n frames

unfoldable pub logged : Result (Unit {0}) × Router → Result (Unit {0}) × Router
logged (raised index_error, r) = (ok tt, r)
logged outcome = outcome

-- `except IndexError`: the message is logged
unfoldable pub or_log : Step (Unit {0}) → Step (Unit {0})
or_log m r = logged (m r)

module _ (env : Platform) where
  unfoldable pub agentstop : Frames → Step (Unit {0})
  agentstop frames = do
    drop ← lift (nth frames 6)
    drop_peer env drop
    on_service (peer_drop env.pubsub_env drop)
    notify (peer_dropped drop)

  unfoldable pub quit : Frames → Step (Option Response)
  quit frames = do
    sender ← lift (nth frames 0)
    (if is_text sender "platform.control"
        then (do
          env.close_external_connections
          modify (λ r. record r { closed = true })
          raise keyboard_interrupt)
        else pure none)

  unfoldable pub query : Frames → Step (Option Response)
  query frames = do
    value ← lift (query_value env.settings (nth frames 6))
    pure (some (reply (set (take_frames 6 frames ++ str "" ∷ value ∷ []) 3 (str ""))))

  unfoldable pub some_response : Step Response → Step (Option Response)
  some_response m = do response ← m; pure (some response)

  -- `handle_subsystem`: `none` for `None`
  unfoldable pub handle_subsystem : Frames → Value → Step (Option Response)
  handle_subsystem frames user_id = do
    subsystem ← lift (nth frames 5)
    (if is_text subsystem "quit"
        then quit frames
        else if is_text subsystem "agentstop"
        then (do or_log (agentstop frames); pure (some refused))
        else if is_text subsystem "query"
        then query frames
        else if is_text subsystem "pubsub"
        then some_response (on_service (Handler.handle_subsystem env.pubsub_env frames user_id))
        else if is_text subsystem "routing_table"
        then env.routing_table frames
        else if is_text subsystem "external_rpc"
        then env.external_rpc frames
        else pure none)
