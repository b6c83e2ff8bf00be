-- ===== src/Wire.antt =====
-- The ZMQ socket, which is not the program's own: it answers each attempt to send, and may answer
-- by all that was tried before. Messages are recorded as lists of values, with whether they went
-- through `serialize_frames`.
use Prim.Native.String.{String}
use volttron_core.Prelude.{Bool, List, [], ◌∷◌, ◌++◌}
use volttron_core.Py.Result.{Errno, host_unreachable, again, other_errno}
use volttron_core.Py.Value.{Value}

abbrev pub Frames : Type 0
Frames = List Value

-- What `send_multipart` does: it returns, it raises `ZMQError` with a number, or it raises
-- `TypeError` for a frame that is not bytes.
pub data Outcome : Type 0 where
  delivered : Outcome
  failed : Errno → Outcome
  unsupported : Outcome

pub record Attempt : Type 0 where
  pub serialized : Bool
  pub frames : Frames
  pub outcome : Outcome

abbrev pub Socket : Type 0
Socket = List Attempt → Bool → Frames → Outcome

-- the attempts so far, oldest first
abbrev pub Wire : Type 0
Wire = List Attempt

unfoldable pub send_multipart : Socket → Bool → Frames → Wire → Outcome × Wire
send_multipart socket serialized frames wire =
    let outcome = socket wire serialized frames in
    let new : Attempt = record { serialized = serialized; frames = frames; outcome = outcome } in
    (outcome, wire ++ new ∷ [])

-- `_ROUTE_ERRORS[errno]`: the number and the text of the error, as frames (Linux)
unfoldable pub error_number : Errno → String
error_number host_unreachable = "113"
error_number again = "11"
error_number other_errno = ""

unfoldable pub error_text : Errno → String
error_text host_unreachable = "No route to host"
error_text again = "Resource temporarily unavailable"
error_text other_errno = ""
