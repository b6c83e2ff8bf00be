-- ===== src/PubSub/Responses.antt =====
-- Whole requests through `handle_subsystem`: responses, errors, and the state afterwards.
use volttron_core.Prelude.{
  if◌then◌else◌, String, ◌≡◌, refl, true, false, ◌&&◌, ◌||◌, List, [], ◌∷◌, ◌==◌, string_eq,
  contains,
}
use volttron_core.Py.Exec.{modify, ◌>>=◌}
use volttron_core.Py.Result.{Result, ok}
use volttron_core.Py.Access.{nth, as_text, get_item, get_default, one_or_many}
use volttron_core.Py.Value.{Value, bool, str, truthy, value_eq}
use volttron_core.PubSub.Protected
use volttron_core.PubSub.Protected.{Protected}
use volttron_core.PubSub.Subscriptions.{add_prefixes}
use volttron_core.PubSub.Subscriptions.Laws.{is_subscribed, is_subscribed-add_prefixes}
use volttron_core.PubSub.Service.{Service, Env, announce}
use volttron_core.PubSub.Service.Invariant.{subscriptions-announce_if}
use volttron_core.PubSub.Parse
use volttron_core.PubSub.Requests.{peer_subscribe, subscribe_from}
use volttron_core.PubSub.Handler.{
  reply, dispatch, handle_op, handle_frame, handle_subsystem, respond, response_header,
}

module _ (env : Env) where
  -- A subscribe request is answered by `True`, subscribes its sender to the prefixes on the bus, for
  -- all platforms if `all_platforms` is true and else for this one, and changes no other subscription;
  -- if its body has a text or a list of texts as the prefix and a text as the bus.
  pub handle_subsystem_subscribe :
      (sender recipient proto uid msg_id user_id msg prefix flag : Value) (prefixes : List String)
      (bus : String) (s : Service)
      → get_item msg "prefix" ≡ ok prefix
      → get_item msg "bus" ≡ ok (str bus)
      → get_default msg "all_platforms" (bool false) ≡ ok flag
      → one_or_many prefix ≡ ok prefixes
      → (s' : Service) × (handle_subsystem env
            (sender ∷ recipient ∷ proto ∷ uid ∷ msg_id ∷ str "pubsub" ∷ str "subscribe" ∷ msg ∷ [])
            user_id
            s
          ≡ (
            ok (
                reply (
                  sender
                  ∷ recipient
                  ∷ proto
                  ∷ user_id
                  ∷ msg_id
                  ∷ str "pubsub"
                  ∷ str "request_response"
                  ∷ bool true
                  ∷ [])),
            s',
          ))
        × ((q : Value) (p b x : String)
            → is_subscribed q p b x s'.subscriptions ≡ (
                (if truthy flag then "all" else "internal") == p
                  && (bus == b && contains x prefixes)
                  && sender == q
                || is_subscribed q p b x s.subscriptions))
  unfolding handle_subsystem handle_frame handle_op dispatch respond response_header peer_subscribe
      subscribe_from Parse.subscribe_request as_text nth modify ◌>>=◌
  handle_subsystem_subscribe sender recipient proto uid msg_id user_id msg prefix flag prefixes bus
        s has_prefix has_bus has_flag listed =
      let platform = if truthy flag then "all" else "internal" in
      let base : Service = record s {
        subscriptions = add_prefixes sender bus prefixes platform s.subscriptions;
      } in
      (
        if truthy flag then announce env base else base,
        rw (Parse.subscribe_request, has_prefix, has_bus, has_flag, listed) refl,
        λ q p b x.
            rw (subscriptions-announce_if env (truthy flag) base)
              (is_subscribed-add_prefixes sender q bus b x platform p prefixes s.subscriptions),
      )
