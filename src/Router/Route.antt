-- ===== src/Router/Route.antt =====
-- `BaseRouter.route`: one message is read, answered by the router or handed on.
use volttron_core.Prelude.{Option, none, some, List, [], ◌∷◌, not, ◌&&◌, if◌then◌else◌}
use volttron_core.Py.Exec.{pure, gets, ◌>>=◌, ◌>>◌}
use volttron_core.Py.Value.{Value, null, str, truthy, is_text, is_null}
use volttron_core.Wire.{Frames}
use volttron_core.PubSub.Handler.{Response, refused, reply}
use volttron_core.Router.State.{Step, Platform}
use volttron_core.Router.Send.{send}
use volttron_core.Router.Peers.{drop_peer, add_peer}
use volttron_core.Router.Subsystems.{handle_subsystem}

-- The first six frames of a message that can be routed.
pub record Header : Type 0 where
  pub sender : Value
  pub recipient : Value
  pub proto : Value
  pub auth_token : Value
  pub msg_id : Value
  pub subsystem : Value
  -- frames[6:]
  pub args : Frames

-- A message as `route` reads it.
pub data Incoming : Type 0 where
  probe : Value → Incoming
  too_few_frames : Incoming
  bad_signature : Incoming
  message : Header → Incoming

unfoldable pub read_short : Frames → Incoming
read_short (a ∷ b ∷ []) = if truthy a && not (truthy b) then probe a else too_few_frames
read_short _ = too_few_frames

unfoldable pub read_frames : Frames → Incoming
read_frames (a ∷ b ∷ c ∷ d ∷ e ∷ f ∷ args) =
    if is_text c "VIP1"
    then message (record {
      sender = a;
      recipient = b;
      proto = c;
      auth_token = d;
      msg_id = e;
      subsystem = f;
      args = args;
    })
    else bad_signature
read_frames frames = read_short frames

-- `lookup_user_id`, with `""` for `None`
unfoldable pub user_id_of : Header → Value
user_id_of h = if is_null h.sender then str "" else h.sender

unfoldable pub frames_of : Header → Frames
frames_of h = h.sender ∷ h.recipient ∷ h.proto ∷ h.auth_token ∷ h.msg_id ∷ h.subsystem ∷ h.args

-- The reply to the sender whose user id is `user_id`, up to the message id.
unfoldable pub back : Header → Value → Frames → Frames
back h user_id rest = h.sender ∷ h.recipient ∷ h.proto ∷ user_id ∷ h.msg_id ∷ rest

unfoldable pub tail : Frames → Frames
tail [] = []
tail (frame ∷ frames) = frames

unfoldable pub welcome_frames : Value → Header → Frames
welcome_frames identity h =
    back h (user_id_of h) (str "hello" ∷ str "welcome" ∷ str "1.0" ∷ identity ∷ h.sender ∷ [])

-- frames[:7] = [...]
unfoldable pub pong_frames : Header → Frames
pong_frames h = back h (user_id_of h) (str "ping" ∷ str "pong" ∷ tail h.args)

unfoldable pub first_arg : Frames → Value
first_arg [] = null
first_arg (arg ∷ args) = arg

unfoldable pub peerlist_frames : Header → List Value → Frames
peerlist_frames h peers =
    let op = first_arg h.args in
    back h (str "") (
      h.subsystem
      ∷ (if is_text op "list"
          then str "listing" ∷ peers
          else str "error"
            ∷ str (if truthy op then "unknown operation" else "missing operation")
            ∷ []))

-- `_INVALID_SUBSYSTEM` (Linux)
unfoldable pub invalid_frames : Header → Frames
invalid_frames h =
    back h (str "")
      (str "error" ∷ str "93" ∷ str "Protocol not supported" ∷ str "" ∷ h.subsystem ∷ [])

unfoldable pub forward_frames : Header → Frames
forward_frames h = h.recipient ∷ h.sender ∷ h.proto ∷ user_id_of h ∷ h.msg_id ∷ h.subsystem ∷ h.args

-- What a handler's response puts on the wire; an empty response is none.
unfoldable pub response_frames : Header → Option Response → Option Frames
response_frames h none = some (invalid_frames h)
response_frames h (some refused) = none
response_frames h (some (reply [])) = none
response_frames h (some (reply (frame ∷ frames))) = some (frame ∷ frames)

module _ (env : Platform) where
  -- A message to the router: what is sent back, if anything.
  unfoldable pub answer : Header → Step (Option Frames)
  answer h =
      if is_text h.subsystem "hello"
      then pure (some (welcome_frames env.identity h))
      else if is_text h.subsystem "ping"
      then pure (some (pong_frames h))
      else if is_text h.subsystem "peerlist"
      then (do peers ← gets (λ r. r.peers); pure (some (peerlist_frames h peers)))
      else if is_text h.subsystem "error"
      then pure none
      else (do
        response ← handle_subsystem env (frames_of h) (user_id_of h)
        pure (response_frames h response))

  unfoldable pub outgoing : Header → Step (Option Frames)
  outgoing h = if truthy h.recipient then pure (some (forward_frames h)) else answer h

  unfoldable pub drop_unreachable : List Value → Step (Unit {0})
  drop_unreachable [] = pure tt
  drop_unreachable (peer ∷ peers) = do drop_peer env peer; drop_unreachable peers

  unfoldable pub transmit : Option Frames → Step (Unit {0})
  transmit none = pure tt
  transmit (some frames) = do dropped ← send env frames; drop_unreachable dropped

  unfoldable pub route_read : Incoming → Step (Unit {0})
  route_read (probe peer) = add_peer env peer
  route_read too_few_frames = pure tt
  route_read bad_signature = pure tt
  route_read (message h) = do add_peer env h.sender; frames ← outgoing h; transmit frames

  -- `route`
  unfoldable pub route : Frames → Step (Unit {0})
  route frames = route_read (read_frames frames)
