-- ===== src/Router/Forwarding.antt =====
-- A message from one peer to another goes out as it came, but for the names in front.
use volttron_core.Prelude.{◌≡◌, refl, true, false, [], ◌∷◌, ◌++◌, contains}
use volttron_core.Py.Exec.{◌>>=◌}
use volttron_core.Py.Result.{ok}
use volttron_core.Py.Value.{truthy, is_text, is_null, value_eq}
use volttron_core.Wire.{Frames, delivered, send_multipart}
use volttron_core.PubSub.Service.{attempt}
use volttron_core.Router.State.{Router, Platform, on_service}
use volttron_core.Router.Send.{send, sent, frames_0_2}
use volttron_core.Router.Peers.{hashable, add_peer}
use volttron_core.Router.Route.{
  Header, user_id_of, forward_frames, read_frames, outgoing, transmit, drop_unreachable, route_read,
  route,
}

module _ (env : Platform) (h : Header) (r : Router) where
  add_peer_known :
      hashable h.sender ≡ true
      → contains h.sender r.peers ≡ true
      → add_peer env h.sender r ≡ (ok tt, r)
  unfolding add_peer ◌>>=◌
  add_peer_known hash known = rw (hash, known) refl

  abbrev pub received : Frames
  received = h.sender ∷ h.recipient ∷ h.proto ∷ h.auth_token ∷ h.msg_id ∷ h.subsystem ∷ h.args

  abbrev pub forwarded : Frames
  forwarded = h.recipient ∷ h.sender ∷ h.proto ∷ h.sender ∷ h.msg_id ∷ h.subsystem ∷ h.args

  forward_frames_known : is_null h.sender ≡ false → forward_frames h ≡ forwarded
  unfolding forward_frames user_id_of
  forward_frames_known present = rw present refl

  abbrev pub carried : Router
  carried = record r {
    service = record r.service {
      wire =
          r.service.wire
          ++ record { serialized = true; frames = forwarded; outcome = delivered } ∷ [];
    };
  }

  send_delivered :
      env.pubsub_env.socket r.service.wire true forwarded ≡ delivered
      → send env forwarded r ≡ (ok [], carried)
  unfolding send sent frames_0_2 attempt on_service send_multipart ◌>>=◌
  send_delivered answer = rw answer refl

  -- A VIP1 message of a known peer to a recipient other than the router, which the socket accepts,
  -- is the one message sent: it names the recipient first, then the sender, with the sender for
  -- the user id in the place of the token, and the rest unchanged. Nothing else changes.
  pub route_delivered :
      is_text h.proto "VIP1" ≡ true
      → hashable h.sender ≡ true
      → contains h.sender r.peers ≡ true
      → is_null h.sender ≡ false
      → truthy h.recipient ≡ true
      → env.pubsub_env.socket r.service.wire true forwarded ≡ delivered
      → route env received r ≡ (ok tt, carried)
  unfolding route route_read read_frames outgoing transmit drop_unreachable ◌>>=◌
  route_delivered signature hash known present recipient answer = rw signature (
      rw (add_peer_known hash known)
        (rw recipient (rw (forward_frames_known present) (rw (send_delivered answer) refl))))
