-- ===== src/PubSub/Service/Invariant.antt =====
-- The invariant of the subscriptions under the operations of the service.
use volttron_core.Prelude.{
  String, ◌≡◌, refl, Bool, true, false, List, [], ◌∷◌, arith, string_eq, if◌then◌else◌,
}
use volttron_core.Py.Dict.{has}
use volttron_core.Py.Exec.{modify}
use volttron_core.Py.Keeps.{Keeps, keeps_rules, Keeps-bind, Keeps-pure}
use volttron_core.Py.Result.{host_unreachable, again, other_errno}
use volttron_core.Py.Value.{Value}
use volttron_core.Wire.{Frames, Outcome, delivered, failed, unsupported}
use volttron_core.PubSub.Subscriptions.{Subscriptions, Item}
use volttron_core.PubSub.Subscriptions.WellFormed.{
  IsWellFormed, at_bus-IsWellFormed, topics_of-Each,
}
use volttron_core.PubSub.Subscriptions.Sync.{sync_exact}
use volttron_core.PubSub.Service.{
  Service, Env, announce, send_external_subscriptions, sync_peer, peer_drop, attempt, sent, replied,
  send, drop_peers, deliver, read_bus,
}

abbrev pub IsSound : Service → Type 0
IsSound s = IsWellFormed s.subscriptions

-- A change that leaves the subscriptions alone.
pub Keeps-modify :
    (f : Service → Service) → ((s : Service) → IsSound s → IsSound (f s)) → Keeps IsSound (modify f)
unfolding modify
Keeps-modify f h = record { at = h }

module _ (env : Env) where
  pub subscriptions-announce : (s : Service) → (announce env s).subscriptions ≡ s.subscriptions
  unfolding announce send_external_subscriptions
  subscriptions-announce s = ground arith

  pub subscriptions-announce_if :
      (b : Bool) (s : Service) → (if b then announce env s else s).subscriptions ≡ s.subscriptions
  subscriptions-announce_if true s = subscriptions-announce s
  subscriptions-announce_if false s = refl

  pub announce_if-IsSound :
      (b : Bool) → Keeps IsSound (modify (λ s. if b then announce env s else s))
  announce_if-IsSound b = Keeps-modify _ (λ s h. rw (subscriptions-announce_if b s) h)

  pub sync_peer-IsSound :
      (peer : Value) (items : List Item) → Keeps IsSound (sync_peer env peer items)
  unfolding sync_peer
  sync_peer-IsSound peer items = record {
    at = λ s h.
        let (subs, e, w, _) = sync_exact peer items s.subscriptions h in
        rw (e, sync_peer) (rw (subscriptions-announce_if (has "all" subs) _) w);
  }

  pub attempt-IsSound :
      (serialized : Bool) (frames : Frames) → Keeps IsSound (attempt env serialized frames)
  unfolding attempt
  attempt-IsSound serialized frames = record { at = λ s h. h }

  replied-IsSound : (outcome : Outcome) → Keeps IsSound (replied env outcome)
  unfolding replied
  replied-IsSound delivered = search keeps_rules
  replied-IsSound (failed errno) = search keeps_rules
  replied-IsSound unsupported = search keeps_rules

  sent-IsSound :
      (frames : Frames) (publisher subscriber : Value) (outcome : Outcome)
      → Keeps IsSound (sent env frames publisher subscriber outcome)
  unfolding sent
  sent-IsSound frames publisher subscriber delivered = search keeps_rules
  sent-IsSound frames publisher subscriber (failed host_unreachable) = search keeps_rules
  sent-IsSound frames publisher subscriber (failed again) =
      search (keeps_rules, attempt-IsSound, replied-IsSound)
  sent-IsSound frames publisher subscriber (failed other_errno) = search keeps_rules
  sent-IsSound frames publisher subscriber unsupported = search keeps_rules

  pub send-IsSound :
      (frames : Frames) (publisher : Value) → Keeps IsSound (send env frames publisher)
  unfolding send
  send-IsSound frames publisher = search (keeps_rules, attempt-IsSound, sent-IsSound)

  pub peer_drop-IsSound : (peer : Value) → Keeps IsSound (peer_drop env peer)
  unfolding peer_drop
  peer_drop-IsSound peer = sync_peer-IsSound peer []

  pub drop_peers-IsSound : (peers : List Value) → Keeps IsSound (drop_peers env peers)
  unfolding drop_peers
  drop_peers-IsSound [] = Keeps-pure tt
  drop_peers-IsSound (peer ∷ peers) =
      Keeps-bind _ _ (peer_drop-IsSound peer) (λ _. drop_peers-IsSound peers)

  pub deliver-IsSound :
      (subscribers : List Value) (publisher : Value) (frames : Frames)
      → Keeps IsSound (deliver env subscribers publisher frames)
  unfolding deliver
  deliver-IsSound [] publisher frames = Keeps-pure frames
  deliver-IsSound (subscriber ∷ rest) publisher frames =
      search (keeps_rules, send-IsSound, drop_peers-IsSound, deliver-IsSound rest)

pub read_bus-IsWellFormed :
    (platform bus : String) (subs : Subscriptions)
    → IsWellFormed subs
    → IsWellFormed (read_bus platform bus subs)
unfolding read_bus
read_bus-IsWellFormed platform bus subs h =
    at_bus-IsWellFormed platform bus (λ topics. topics) subs (topics_of-Each platform bus subs h) h
