-- ===== src/Router/Send.antt =====
-- `BaseRouter._send`.
use volttron_core.Prelude.{true, List, [], ◌∷◌, ◌++◌, if◌then◌else◌}
use volttron_core.Py.Exec.{pure, raise, lift, ◌>>=◌}
use volttron_core.Py.Result.{
  Result, ok, raised, Errno, host_unreachable, again, other_errno, value_error, type_error,
  zmq_error,
}
use volttron_core.Py.Value.{Value, str}
use volttron_core.Wire.{Frames, Outcome, delivered, failed, unsupported, error_number, error_text}
use volttron_core.PubSub.Service.{frames_2_6, attempt}
use volttron_core.Router.State.{Step, Platform, on_service}

-- recipient, sender = frames[:2]
unfoldable pub frames_0_2 : Frames → Result (Value × Value)
frames_0_2 (a ∷ b ∷ rest) = ok (a, b)
frames_0_2 _ = raised value_error

unfoldable pub error_frames : Value → Value → Value × Value × Value × Value → Errno → Frames
error_frames sender recipient (proto, user_id, msg_id, subsystem) errno =
    sender
    ∷ str ""
    ∷ proto
    ∷ user_id
    ∷ msg_id
    ∷ str "error"
    ∷ str (error_number errno)
    ∷ str (error_text errno)
    ∷ recipient
    ∷ subsystem
    ∷ []

-- what the attempt to report an error adds to the recipients to drop
unfoldable pub reported : Value → List Value → Outcome → Step (List Value)
reported sender drop delivered = pure drop
reported sender drop (failed host_unreachable) = pure (drop ++ sender ∷ [])
reported sender drop (failed again) = pure drop
reported sender drop (failed other_errno) = raise (zmq_error other_errno)
reported sender drop unsupported = raise type_error

module _ (env : Platform) where
  unfoldable pub report : Errno → Frames → Value → Value → List Value → Step (List Value)
  report errno frames recipient sender drop = do
    header ← lift (frames_2_6 frames)
    outcome ← on_service (attempt env.pubsub_env true (error_frames sender recipient header errno))
    reported sender drop outcome

  unfoldable pub sent : Frames → Value → Value → Outcome → Step (List Value)
  sent frames recipient sender delivered = pure []
  sent frames recipient sender (failed host_unreachable) =
      if env.same_object sender recipient
      then pure (recipient ∷ [])
      else report host_unreachable frames recipient sender (recipient ∷ [])
  sent frames recipient sender (failed again) = report again frames recipient sender []
  sent frames recipient sender (failed other_errno) = raise (zmq_error other_errno)
  sent frames recipient sender unsupported = raise type_error

  -- `_send`: the peers to drop
  unfoldable pub send : Frames → Step (List Value)
  send frames = do
    ends ← lift (frames_0_2 frames)
    outcome ← on_service (attempt env.pubsub_env true frames)
    sent frames ends.0 ends.1 outcome
