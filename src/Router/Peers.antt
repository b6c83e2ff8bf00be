-- ===== src/Router/Peers.antt =====
-- `BaseRouter._distribute`, `_drop_peer` and `_add_peer`, with the hooks of `Router`.
use volttron_core.Prelude.{
  ℕ, zero, suc, Bool, true, false, List, [], ◌∷◌, ◌++◌, length, contains, discard, add, union,
  if◌then◌else◌,
}
use volttron_core.Py.Exec.{pure, raise, gets, modify, guard, ◌>>=◌, ◌>>◌}
use volttron_core.Py.Result.{type_error, error}
use volttron_core.Py.Value.{Value, str, list, dict, value_eq}
use volttron_core.Wire.{Frames}
use volttron_core.PubSub.Service.{peer_drop}
use volttron_core.Router.State.{Step, Platform, Notice, peer_added, peer_dropped, on_service}
use volttron_core.Router.Send.{send}

-- A member of a set has to be hashable.
unfoldable pub hashable : Value → Bool
hashable (list items) = false
hashable (dict fields) = false
hashable _ = true

unfoldable pub notify : Notice → Step (Unit {0})
notify notice = modify λ r. record r { notices = r.notices ++ notice ∷ [] }

module _ (env : Platform) where
  -- The loop of `_distribute` over the peers: who is to be dropped.
  unfoldable pub tell : Frames → List Value → List Value → Step (List Value)
  tell parts [] drop = pure drop
  tell parts (peer ∷ peers) drop = do
    dropped ← send env (peer ∷ str "" ∷ str "VIP1" ∷ str "" ∷ str "" ∷ parts)
    tell parts peers (union drop dropped)

  unfoldable pub drop_each : (Value → Step (Unit {0})) → List Value → Step (Unit {0})
  drop_each drop [] = pure tt
  drop_each drop (peer ∷ peers) = do drop peer; notify (peer_dropped peer); drop_each drop peers

  -- `_distribute`, which drops peers by `drop`
  unfoldable pub distribute_by : (Value → Step (Unit {0})) → Frames → Step (Unit {0})
  distribute_by drop parts = do
    peers ← gets (λ r. r.peers)
    dropped ← tell parts peers []
    drop_each drop dropped

  unfoldable pub forget_peer : Value → Step (Unit {0})
  forget_peer peer = modify λ r. record r { peers = discard peer r.peers }

  -- `_drop_peer` and `_distribute` call each other; each round takes a peer out of `_peers`. After
  -- `n` rounds, one in another, `spent` is done.
  unfoldable pub drop_peer_within : Step (Unit {0}) → ℕ → Value → Step (Unit {0})
  drop_peer_within spent zero peer = spent
  drop_peer_within spent (suc n) peer =
      let drop = drop_peer_within spent n in
      (do
        guard (hashable peer) type_error
        known ← gets (λ r. contains peer r.peers)
        (if known
            then (do
              forget_peer peer
              distribute_by drop (str "peerlist" ∷ str "drop" ∷ peer ∷ [])
              on_service (peer_drop env.pubsub_env peer))
            else pure tt))

  unfoldable pub out_of_fuel : Step (Unit {0})
  out_of_fuel = raise (error "out of fuel")

  -- `_drop_peer`
  unfoldable pub drop_peer : Value → Step (Unit {0})
  drop_peer peer r = drop_peer_within out_of_fuel (suc (length r.peers)) peer r

  -- `_distribute`
  unfoldable pub distribute : Frames → Step (Unit {0})
  distribute parts = distribute_by drop_peer parts

  -- `_add_peer`; the hook `peer_add` of the pubsub service does nothing
  unfoldable pub add_peer : Value → Step (Unit {0})
  add_peer peer = do
    guard (hashable peer) type_error
    known ← gets (λ r. contains peer r.peers)
    (if known then pure tt else (do
      distribute (str "peerlist" ∷ str "add" ∷ peer ∷ [])
      modify (λ r. record r { peers = add peer r.peers })
      notify (peer_added peer)))
