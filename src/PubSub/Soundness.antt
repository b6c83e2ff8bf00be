-- ===== src/PubSub/Soundness.antt =====
-- Every message that the service handles keeps the invariant of the subscriptions.
use volttron_core.Prelude.{
  String, Option, none, some, List, [], ◌∷◌, ◌==◌, nat_eq, arith, string_eq,
}
use volttron_core.Py.Dict.{Dict, insert}
use volttron_core.Py.Exec.{modify}
use volttron_core.Py.Keeps.{Keeps, keeps_rules, Keeps-if, Keeps-then, Keeps-pure}
use volttron_core.Py.Result.{Result, raised, key_error, index_error}
use volttron_core.Py.Value.{Value, null, str, dict}
use volttron_core.Wire.{Frames}
use volttron_core.PubSub.Protected.{Protected}
use volttron_core.PubSub.Subscriptions.WellFormed.{IsWellFormed}
use volttron_core.PubSub.Service.{Service, Env, Action, read_bus}
use volttron_core.PubSub.Service.Invariant.{IsSound, Keeps-modify, read_bus-IsWellFormed}
use volttron_core.PubSub.Invariant.{
  peer_subscribe-IsSound, peer_unsubscribe-IsSound, peer_sync-IsSound, peer_publish-IsSound,
  distribute_internal-IsSound,
}
use volttron_core.PubSub.Updates.{
  ignore_key_error, settle_key_error, update_caps_users, load_protected_topics,
  update_protected_topics,
}
use volttron_core.PubSub.Handler.{
  store_external, update_from, update_external_subscriptions, send_external, external_from,
  external_to_local_publish, buses_of, list_from, settle_list, or_empty, peer_list, dispatch,
  settle_publish, or_no_response, handle_op, handle_frame, handle_subsystem,
}

ignore_key_error-IsSound :
    (m : Action (Unit {0})) → Keeps IsSound m → Keeps IsSound (ignore_key_error m)
unfolding ignore_key_error
ignore_key_error-IsSound m k = record { at = λ s h. settled (m s) (k.at s h) }
  where
    settled : (r : Result (Unit {0}) × Service) → IsSound r.1 → IsSound (settle_key_error r).1
    settled (raised key_error, s) h = h
    settled (r, s) h = h

-- Changes of other fields.
caps-IsSound :
    (table : Dict (List String))
    → Keeps IsSound (modify (λ s. record s { user_capabilities = table }))
caps-IsSound table = Keeps-modify _ (λ s h. h)

protected-IsSound :
    (table : Protected) → Keeps IsSound (modify (λ s. record s { protected_topics = table }))
protected-IsSound table = Keeps-modify _ (λ s h. h)

update_caps_users-IsSound : (frames : Frames) → Keeps IsSound (update_caps_users frames)
unfolding update_caps_users
update_caps_users-IsSound frames =
    search (keeps_rules, ignore_key_error-IsSound, caps-IsSound) depth 12

load_protected_topics-IsSound : (msg : Value) → Keeps IsSound (load_protected_topics msg)
unfolding load_protected_topics
load_protected_topics-IsSound msg =
    search (keeps_rules, ignore_key_error-IsSound, protected-IsSound) depth 9

update_protected_topics-IsSound : (frames : Frames) → Keeps IsSound (update_protected_topics frames)
unfolding update_protected_topics
update_protected_topics-IsSound frames = search (keeps_rules, load_protected_topics-IsSound) depth 9

ext-IsSound :
    (name : String) (prefixes : List String)
    → Keeps IsSound
        (modify (λ s. record s { ext_subscriptions = insert name prefixes s.ext_subscriptions }))
ext-IsSound name prefixes = Keeps-modify _ (λ s h. h)

module _ (env : Env) where
  store_external-IsSound : (d : Dict Value) → Keeps IsSound (store_external env d)
  unfolding store_external
  store_external-IsSound [] = Keeps-pure tt
  store_external-IsSound ((name, value) ∷ d) =
      let rest = store_external-IsSound d in
      Keeps-if (name == env.instance_name) _ _ rest
        (Keeps-then _ _ (search (keeps_rules, ext-IsSound)) rest)

  update_from-IsSound : (msg : Value) → Keeps IsSound (update_from env msg)
  unfolding update_from
  update_from-IsSound (dict fields) = search (keeps_rules, store_external-IsSound)
  update_from-IsSound v = search keeps_rules

  update_external_subscriptions-IsSound :
      (frames : Frames) → Keeps IsSound (update_external_subscriptions env frames)
  unfolding update_external_subscriptions
  update_external_subscriptions-IsSound frames = search (keeps_rules, update_from-IsSound) depth 9

  send_external-IsSound :
      (publisher : Value) (frames : Frames) → Keeps IsSound (send_external env publisher frames)
  unfolding send_external
  send_external-IsSound publisher frames = record { at = λ s h. ground arith }

  external_from-IsSound :
      (frames : Frames) (publisher topic_frame : Value) (header : Frames) (denied : Option String)
      → Keeps IsSound (external_from env frames publisher topic_frame header denied)
  unfolding external_from
  external_from-IsSound frames publisher topic_frame header none =
      search (keeps_rules, distribute_internal-IsSound env, send_external-IsSound) depth 9
  external_from-IsSound frames publisher topic_frame header (some errmsg) =
      send_external-IsSound publisher _

  external_to_local_publish-IsSound :
      (frames : Frames) → Keeps IsSound (external_to_local_publish env frames)
  unfolding external_to_local_publish
  external_to_local_publish-IsSound frames = search (keeps_rules, external_from-IsSound) depth 15

  read_one-IsSound :
      (platform name : String)
      → Keeps IsSound
          (modify (λ s. record s { subscriptions = read_bus platform name s.subscriptions }))
  read_one-IsSound platform name =
      Keeps-modify _ (λ s h. read_bus-IsWellFormed platform name s.subscriptions h)

  buses_of-IsSound : (bus : Value) (platform : String) → Keeps IsSound (buses_of env bus platform)
  unfolding buses_of
  buses_of-IsSound null platform = search keeps_rules
  buses_of-IsSound bus platform = search (keeps_rules, read_one-IsSound) depth 9

  list_from-IsSound : (peer msg : Value) → Keeps IsSound (list_from env peer msg)
  unfolding list_from
  list_from-IsSound peer msg = search (keeps_rules, buses_of-IsSound) depth 15

  or_empty-IsSound : (m : Action Value) → Keeps IsSound m → Keeps IsSound (or_empty env m)
  unfolding or_empty settle_list
  or_empty-IsSound m k = record { at = λ s h. settled (m s) (k.at s h) }
    where
      settled : (r : Result Value × Service) → IsSound r.1 → IsSound (settle_list env r).1
      settled (raised key_error, s) h = h
      settled (r, s) h = h

  peer_list-IsSound : (frames : Frames) → Keeps IsSound (peer_list env frames)
  unfolding peer_list
  peer_list-IsSound frames = search (keeps_rules, or_empty-IsSound, list_from-IsSound) depth 9

  dispatch-IsSound :
      (op : String) (frames : Frames) (user_id : Value)
      → Keeps IsSound (dispatch env op frames user_id)
  unfolding dispatch
  dispatch-IsSound op frames user_id =
      search
        (
          keeps_rules,
          peer_subscribe-IsSound env,
          peer_unsubscribe-IsSound env,
          peer_sync-IsSound env,
          peer_publish-IsSound env,
          update_caps_users-IsSound,
          update_protected_topics-IsSound,
          update_external_subscriptions-IsSound,
          external_to_local_publish-IsSound,
        )
        depth 20

  or_no_response-IsSound :
      (m : Action (Option Value)) → Keeps IsSound m → Keeps IsSound (or_no_response env m)
  unfolding or_no_response settle_publish
  or_no_response-IsSound m k = record { at = λ s h. settled (m s) (k.at s h) }
    where
      settled :
          (r : Result (Option Value) × Service) → IsSound r.1 → IsSound (settle_publish env r).1
      settled (raised index_error, s) h = h
      settled (r, s) h = h

  handle_op-IsSound :
      (op : String) (frames : Frames) (user_id : Value)
      → Keeps IsSound (handle_op env op frames user_id)
  unfolding handle_op
  handle_op-IsSound op frames user_id =
      search (keeps_rules, peer_list-IsSound, dispatch-IsSound, or_no_response-IsSound) depth 12

  handle_frame-IsSound :
      (op : Value) (frames : Frames) (user_id : Value)
      → Keeps IsSound (handle_frame env op frames user_id)
  unfolding handle_frame
  handle_frame-IsSound (str op) frames user_id = handle_op-IsSound op frames user_id
  handle_frame-IsSound v frames user_id = search keeps_rules

  handle_subsystem-Keeps :
      (frames : Frames) (user_id : Value) → Keeps IsSound (handle_subsystem env frames user_id)
  unfolding handle_subsystem
  handle_subsystem-Keeps frames user_id = search (keeps_rules, handle_frame-IsSound) depth 12

-- Whatever message comes, and whatever the socket answers and the handler raises: in the
-- subscriptions after it no key is repeated and no set is empty, if it was so before.
pub handle_subsystem-IsWellFormed :
    (env : Env) (frames : Frames) (user_id : Value) (s : Service)
    → IsWellFormed s.subscriptions
    → IsWellFormed (handle_subsystem env frames user_id s).1.subscriptions
handle_subsystem-IsWellFormed env frames user_id s h =
    (handle_subsystem-Keeps env frames user_id).at s h
