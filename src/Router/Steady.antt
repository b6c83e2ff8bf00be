-- ===== src/Router/Steady.antt =====
-- What sending and dropping peers keep: one proof for every property of the router that an attempt
-- to send, a notice, and the removal of a peer keep.
use volttron_core.Prelude.{ℕ, zero, suc, Bool, List, [], ◌∷◌}
use volttron_core.Py.Keeps.{Keeps, keeps_rules, Keeps-guard, Keeps-raise, Keeps-bind, Keeps-then}
use volttron_core.Py.Result.{host_unreachable, again, other_errno, Errno}
use volttron_core.Py.Value.{Value}
use volttron_core.Wire.{Frames, Outcome, delivered, failed, unsupported}
use volttron_core.PubSub.Service.{attempt, peer_drop}
use volttron_core.Router.State.{Router, Step, Platform, Notice, on_service}
use volttron_core.Router.Send.{reported, report, sent, send}
use volttron_core.Router.Peers.{
  notify, out_of_fuel, tell, drop_each, distribute_by, forget_peer, drop_peer_within, drop_peer,
  distribute,
}

pub record Steady {μ} (env : Platform) (P : Router → Type μ) : Type μ where
  pub kept_by_attempt :
      (serialized : Bool) (frames : Frames)
      → Keeps P (on_service (attempt env.pubsub_env serialized frames))
  pub kept_by_peer_drop : (peer : Value) → Keeps P (on_service (peer_drop env.pubsub_env peer))
  pub kept_by_forget : (peer : Value) → Keeps P (forget_peer env peer)
  pub kept_by_notify : (notice : Notice) → Keeps P (notify notice)

module _ {μ} (env : Platform) (P : Router → Type μ) (steady : Steady env P) where
  reported-Keeps :
      (sender : Value) (drop : List Value) (outcome : Outcome)
      → Keeps P (reported sender drop outcome)
  unfolding reported
  reported-Keeps sender drop delivered = search keeps_rules
  reported-Keeps sender drop (failed host_unreachable) = search keeps_rules
  reported-Keeps sender drop (failed again) = search keeps_rules
  reported-Keeps sender drop (failed other_errno) = search keeps_rules
  reported-Keeps sender drop unsupported = search keeps_rules

  report-Keeps :
      (errno : Errno) (frames : Frames) (recipient sender : Value) (drop : List Value)
      → Keeps P (report env errno frames recipient sender drop)
  unfolding report
  report-Keeps errno frames recipient sender drop =
      search (keeps_rules, steady.kept_by_attempt, reported-Keeps)

  sent-Keeps :
      (frames : Frames) (recipient sender : Value) (outcome : Outcome)
      → Keeps P (sent env frames recipient sender outcome)
  unfolding sent
  sent-Keeps frames recipient sender delivered = search keeps_rules
  sent-Keeps frames recipient sender (failed host_unreachable) = search (keeps_rules, report-Keeps)
  sent-Keeps frames recipient sender (failed again) = search (keeps_rules, report-Keeps)
  sent-Keeps frames recipient sender (failed other_errno) = search keeps_rules
  sent-Keeps frames recipient sender unsupported = search keeps_rules

  pub send-Keeps : (frames : Frames) → Keeps P (send env frames)
  unfolding send
  send-Keeps frames = search (keeps_rules, steady.kept_by_attempt, sent-Keeps)

  pub tell-Keeps : (parts : Frames) (peers drop : List Value) → Keeps P (tell env parts peers drop)
  unfolding tell
  tell-Keeps parts [] drop = search keeps_rules
  tell-Keeps parts (peer ∷ peers) drop =
      Keeps-bind _ _ (send-Keeps _) λ dropped. tell-Keeps parts peers _

  drop_each-Keeps :
      (drop : Value → Step (Unit {0}))
      → ((peer : Value) → Keeps P (drop peer))
      → (peers : List Value) → Keeps P (drop_each env drop peers)
  unfolding drop_each
  drop_each-Keeps drop kept [] = search keeps_rules
  drop_each-Keeps drop kept (peer ∷ peers) =
      Keeps-then _ _ (kept peer)
        (Keeps-then _ _ (steady.kept_by_notify _) (drop_each-Keeps drop kept peers))

  pub distribute_by-Keeps :
      (drop : Value → Step (Unit {0}))
      → ((peer : Value) → Keeps P (drop peer))
      → (parts : Frames) → Keeps P (distribute_by env drop parts)
  unfolding distribute_by
  distribute_by-Keeps drop kept parts = search (keeps_rules, tell-Keeps, drop_each-Keeps drop kept)

  pub drop_peer_within-Keeps :
      (spent : Step (Unit {0}))
      → Keeps P spent
      → (n : ℕ) (peer : Value) → Keeps P (drop_peer_within env spent n peer)
  unfolding drop_peer_within
  drop_peer_within-Keeps spent kept zero peer = kept
  drop_peer_within-Keeps spent kept (suc n) peer =
      search
        (
          keeps_rules,
          Keeps-guard,
          steady.kept_by_forget,
          distribute_by-Keeps (drop_peer_within env spent n) (drop_peer_within-Keeps spent kept n),
          steady.kept_by_peer_drop,
        )
        depth 12

  pub drop_peer-Keeps : (peer : Value) → Keeps P (drop_peer env peer)
  unfolding drop_peer out_of_fuel
  drop_peer-Keeps peer = record {
    at = λ r h. (drop_peer_within-Keeps _ (Keeps-raise _) _ peer).at r h;
  }

  pub distribute-Keeps : (parts : Frames) → Keeps P (distribute env parts)
  unfolding distribute
  distribute-Keeps parts = distribute_by-Keeps (drop_peer env) drop_peer-Keeps parts
