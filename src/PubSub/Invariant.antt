-- ===== src/PubSub/Invariant.antt =====
-- The requests of the peers keep the invariant of the subscriptions.
use volttron_core.Prelude.{
  String, Bool, Option, none, some, List, [], ◌∷◌, ◌==◌, nat_eq, arith, string_eq,
}
use volttron_core.Py.Dict.{Dict}
use volttron_core.Py.Exec.{modify}
use volttron_core.Py.Keeps.{Keeps, keeps_rules, Keeps-bind, Keeps-then, Keeps-lift}
use volttron_core.Py.Result.{Result, ok, raised, key_error}
use volttron_core.Py.Value.{Value, dict}
use volttron_core.Wire.{Frames}
use volttron_core.PubSub.Subscriptions.{Prefix, add_prefixes, unsubscribe}
use volttron_core.PubSub.Subscriptions.WellFormed.{add_prefixes-IsWellFormed}
use volttron_core.PubSub.Subscriptions.Unsubscribe.{unsubscribe-IsWellFormed}
use volttron_core.PubSub.Service.{Env, read_bus}
use volttron_core.PubSub.Service.Invariant.{
  IsSound, Keeps-modify, announce_if-IsSound, sync_peer-IsSound, send-IsSound, deliver-IsSound,
  read_bus-IsWellFormed,
}
use volttron_core.PubSub.Publish.{
  distribute_internal, distribute_external, external_publish, distribute, deliver_on,
  distribute_from, publish_from, peer_publish,
}
use volttron_core.PubSub.Parse
use volttron_core.PubSub.Requests.{
  peer_subscribe, unsubscribe_all, peer_unsubscribe, subscribe_from, sync_from, peer_sync,
}

subscribe-IsSound :
    (peer : Value) (bus : String) (prefixes : List String) (platform : String)
    → Keeps IsSound (
        modify (λ s. record s {
          subscriptions = add_prefixes peer bus prefixes platform s.subscriptions;
        }))
subscribe-IsSound peer bus prefixes platform =
    Keeps-modify _ (λ s h. add_prefixes-IsWellFormed peer bus platform prefixes s.subscriptions h)

unsubscribe-IsSound :
    (peer : Value) (platform bus : String) (prefix : Prefix)
    → Keeps IsSound (
        modify
          (λ s. record s { subscriptions = unsubscribe peer platform bus prefix s.subscriptions }))
unsubscribe-IsSound peer platform bus prefix =
    Keeps-modify _ (λ s h. unsubscribe-IsWellFormed peer platform bus prefix s.subscriptions h)

read-IsSound :
    (bus : String)
    → Keeps IsSound (
        modify (λ s. record s {
          subscriptions = read_bus "internal" bus (read_bus "all" bus s.subscriptions);
        }))
read-IsSound bus = Keeps-modify _ (λ s h.
    read_bus-IsWellFormed "internal" bus _ (read_bus-IsWellFormed "all" bus s.subscriptions h))

module _ (env : Env) where
  subscribe_from-IsSound :
      (peer : Value) (request : Option (List String × String × Bool))
      → Keeps IsSound (subscribe_from env peer request)
  unfolding subscribe_from
  subscribe_from-IsSound peer none = search keeps_rules
  subscribe_from-IsSound peer (some (prefixes, bus, is_all)) =
      search (keeps_rules, subscribe-IsSound, announce_if-IsSound) depth 9

  pub peer_subscribe-IsSound : (frames : Frames) → Keeps IsSound (peer_subscribe env frames)
  unfolding peer_subscribe
  peer_subscribe-IsSound frames = search (keeps_rules, subscribe_from-IsSound) depth 9

  unsubscribe_all-IsSound :
      (peer : Value) (entries : Dict Value) → Keeps IsSound (unsubscribe_all env peer entries)
  unfolding unsubscribe_all
  unsubscribe_all-IsSound peer [] = search keeps_rules
  unsubscribe_all-IsSound peer ((platform, entry) ∷ entries) =
      Keeps-bind _ _ (Keeps-lift (Parse.unsubscribe_request entry)) λ request.
        Keeps-then _ _ (unsubscribe-IsSound peer platform request.0 request.1) (
          Keeps-then _ _ (announce_if-IsSound env (platform == "all"))
            (unsubscribe_all-IsSound peer entries))

  pub peer_unsubscribe-IsSound : (frames : Frames) → Keeps IsSound (peer_unsubscribe env frames)
  unfolding peer_unsubscribe
  peer_unsubscribe-IsSound frames = search (keeps_rules, unsubscribe_all-IsSound) depth 9

  sync_from-IsSound : (peer : Value) (r : Result Value) → Keeps IsSound (sync_from env peer r)
  unfolding sync_from
  sync_from-IsSound peer (ok (dict fields)) = search (keeps_rules, sync_peer-IsSound)
  sync_from-IsSound peer (ok v) = search keeps_rules
  sync_from-IsSound peer (raised key_error) = search keeps_rules
  sync_from-IsSound peer (raised e) = search keeps_rules

  pub peer_sync-IsSound : (frames : Frames) → Keeps IsSound (peer_sync env frames)
  unfolding peer_sync
  peer_sync-IsSound frames = search (keeps_rules, sync_from-IsSound) depth 9

  deliver_on-IsSound :
      (frames : Frames) (publisher topic_frame : Value) (bus : Option Value)
      → Keeps IsSound (deliver_on env frames publisher topic_frame bus)
  unfolding deliver_on
  deliver_on-IsSound frames publisher topic_frame none = search keeps_rules
  deliver_on-IsSound frames publisher topic_frame (some bus) =
      search (keeps_rules, read-IsSound, deliver-IsSound) depth 12

  pub distribute_internal-IsSound :
      (frames : Frames) → Keeps IsSound (distribute_internal env frames)
  unfolding distribute_internal
  distribute_internal-IsSound frames = search (keeps_rules, deliver_on-IsSound) depth 9

  external_publish-IsSound :
      (platforms : List String) (frames : Frames)
      → Keeps IsSound (external_publish env platforms frames)
  unfolding external_publish
  external_publish-IsSound platforms frames = Keeps-modify _ (λ s h. ground arith)

  distribute_external-IsSound : (frames : Frames) → Keeps IsSound (distribute_external env frames)
  unfolding distribute_external
  distribute_external-IsSound frames = search (keeps_rules, external_publish-IsSound) depth 12

  distribute_from-IsSound :
      (frames : Frames) (user_id : Value) (denied : Option String)
      → Keeps IsSound (distribute_from env frames user_id denied)
  unfolding distribute_from
  distribute_from-IsSound frames user_id none =
      search (keeps_rules, distribute_internal-IsSound, distribute_external-IsSound) depth 9
  distribute_from-IsSound frames user_id (some errmsg) = search (keeps_rules, send-IsSound) depth 9

  distribute-IsSound :
      (frames : Frames) (user_id : Value) → Keeps IsSound (distribute env frames user_id)
  unfolding distribute
  distribute-IsSound frames user_id = search (keeps_rules, distribute_from-IsSound) depth 12

  publish_from-IsSound :
      (frames : Frames) (user_id : Value) (msg : Result Value)
      → Keeps IsSound (publish_from env frames user_id msg)
  unfolding publish_from
  publish_from-IsSound frames user_id (ok msg) = search (keeps_rules, distribute-IsSound)
  publish_from-IsSound frames user_id (raised key_error) = search keeps_rules
  publish_from-IsSound frames user_id (raised e) = search keeps_rules

  pub peer_publish-IsSound :
      (frames : Frames) (user_id : Value) → Keeps IsSound (peer_publish env frames user_id)
  unfolding peer_publish
  peer_publish-IsSound frames user_id = search (keeps_rules, publish_from-IsSound) depth 9
