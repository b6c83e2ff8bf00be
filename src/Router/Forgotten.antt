-- ===== src/Router/Forgotten.antt =====
-- A peer that was dropped is no peer any more.
use volttron_core.Prelude.{
  ◌≡◌, refl, Bool, true, false, [], ◌∷◌, arith, length, contains, contains-discard, beq_refl,
  if◌then◌else◌,
}
use volttron_core.Py.Exec.{modify, gets, guard, pure, ◌>>=◌, ◌>>◌}
use volttron_core.Py.Keeps.{Keeps, Keeps-then, Keeps-raise}
use volttron_core.Py.Value.{Value, str, value_eq}
use volttron_core.Wire.{Frames}
use volttron_core.PubSub.Service.{peer_drop, attempt}
use volttron_core.Router.State.{Router, Step, Platform, on_service}
use volttron_core.Router.Peers.{
  hashable, notify, distribute_by, forget_peer, drop_peer_within, drop_peer, out_of_fuel,
}
use volttron_core.Router.Steady.{Steady, distribute_by-Keeps, drop_peer_within-Keeps}

module _ (env : Platform) (peer : Value) where
  abbrev IsGone : Router → Type 0
  IsGone r = contains peer r.peers ≡ false

  gone : Steady env IsGone
  unfolding on_service forget_peer notify modify attempt
  gone = record {
    kept_by_attempt = λ serialized frames. record { at = λ r h. h };
    kept_by_peer_drop = λ other. record { at = λ r h. h };
    kept_by_forget =
        λ other. record { at = λ r h. ground (arith, contains-discard other peer r.peers, h) };
    kept_by_notify = λ notice. record { at = λ r h. h };
  }

  forget_peer-IsGone : (r : Router) → IsGone (forget_peer env peer r).1
  unfolding forget_peer modify
  forget_peer-IsGone r = ground (arith, contains-discard peer peer r.peers, beq_refl peer)

  dropped-IsGone :
      (drop : Value → Step (Unit {0}))
      → ((other : Value) → Keeps IsGone (drop other))
      → (parts : Frames) (known : Bool) (r : Router) → contains peer r.peers ≡ known
      → IsGone
          ((if known
              then forget_peer env peer
                >> (distribute_by env drop parts >> on_service (peer_drop env.pubsub_env peer))
              else pure tt)
            r).1
  unfolding pure forget_peer modify ◌>>=◌
  dropped-IsGone drop kept parts false r c = c
  dropped-IsGone drop kept parts true r c =
      (Keeps-then _ _ (distribute_by-Keeps env IsGone gone drop kept parts)
          (gone.kept_by_peer_drop peer)).at
        _ (forget_peer-IsGone r)

  -- Dropping a peer takes it out of the peers and leaves it out, also when a message about it
  -- cannot be sent and an exception is raised.
  pub drop_peer-IsGone :
      (r : Router) → hashable peer ≡ true → contains peer (drop_peer env peer r).1.peers ≡ false
  unfolding drop_peer drop_peer_within guard gets out_of_fuel ◌>>=◌
  drop_peer-IsGone r h = rw h (
      dropped-IsGone (drop_peer_within env (out_of_fuel env) (length r.peers))
        (drop_peer_within-Keeps env IsGone gone (out_of_fuel env) (Keeps-raise _) (length r.peers))
        (str "peerlist" ∷ str "drop" ∷ peer ∷ []) (contains peer r.peers) r refl)
