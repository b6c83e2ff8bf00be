-- ===== src/PubSub/Handler.antt =====
-- The messages of the other services and platforms, and `handle_subsystem` of `PubSubService`,
-- which directs each operation to its handler and forms the response.
use volttron_core.Prelude.{
  ℕ, String, Bool, true, false, Option, none, some, [], ◌∷◌, ◌++◌, length, ltb, ◌||◌, if◌then◌else◌,
  string_eq, ◌==◌, nat_eq,
}
use volttron_core.Py.Dict.{Dict, insert, get_or}
use volttron_core.Py.Exec.{pure, raise, lift, gets, modify, ◌>>=◌, ◌>>◌}
use volttron_core.Py.Result.{
  Result, ok, raised, key_error, value_error, attribute_error, index_error,
}
use volttron_core.Py.Value.{
  Value, pos, null, bool, int, str, list, dict, of_fields, to_items, truthy, is_text,
}
use volttron_core.Py.Access.{get_item, get_default, nth, set, as_text, one_or_many}
use volttron_core.Wire.{Frames}
use volttron_core.PubSub.Subscriptions.{Buses, topics_of}
use volttron_core.PubSub.Service.{Service, Env, Action, read_bus}
use volttron_core.PubSub.Publish.{check_if_protected_topic, distribute_internal, peer_publish}
use volttron_core.PubSub.Updates.{update_caps_users, update_protected_topics}
use volttron_core.PubSub.Requests.{peer_subscribe, peer_unsubscribe, peer_sync, list_buses}

-- What a handler returns to the router: `False`, or the frames to send back.
pub data Response : Type 0 where
  refused : Response
  reply : Frames → Response

unfoldable pub count_value : Option ℕ → Option Value
count_value none = none
count_value (some n) = some (int (pos n))

module _ (env : Env) where
  -- The loop of `_update_external_subscriptions`; an entry for this very platform is skipped.
  unfoldable pub store_external : Dict Value → Action (Unit {0})
  store_external [] = pure tt
  store_external ((instance_name, value) ∷ d) =
      let rest = store_external d in
      let store : Action (Unit {0}) = (do
        prefixes ← lift (one_or_many value)
        modify (λ s. record s {
          ext_subscriptions = insert instance_name prefixes s.ext_subscriptions;
        })) in
      if instance_name == env.instance_name then rest else (store >> rest)

  unfoldable pub update_from : Value → Action Bool
  update_from (dict fields) = do store_external (of_fields fields); pure true
  update_from v = raise value_error

  -- `_update_external_subscriptions`
  unfoldable pub update_external_subscriptions : Frames → Action Bool
  update_external_subscriptions frames =
      if ltb 7 (length frames) then (do msg ← lift (nth frames 7); update_from msg) else pure false

  -- `self._ext_router.send_external(publisher, frames)`
  unfoldable pub send_external : Value → Frames → Action (Unit {0})
  send_external publisher frames s = elim s.ext_router [
    | none ↦ (raised attribute_error, s)
    | some router ↦ (ok tt, record s { external = s.external ++ (publisher, frames) ∷ [] })
  ]

  unfoldable pub external_from : Frames → Value → Value → Frames → Option String → Action (Unit {0})
  external_from frames publisher topic_frame header (some errmsg) =
      send_external publisher (header ++ str "-32001" ∷ str errmsg ∷ [])
  external_from frames publisher topic_frame header none = do
    local ← distribute_internal env (set frames 6 (str "publish"))
    (if local.0 == 0
        then send_external publisher (header ++ str "-32600" ∷ topic_frame ∷ [])
        else pure tt)

  -- `_external_to_local_publish`
  unfoldable pub external_to_local_publish : Frames → Action (Unit {0})
  external_to_local_publish frames =
      if ltb 8 (length frames)
      then (do
        publisher ← lift (nth frames 0)
        proto ← lift (nth frames 2)
        user_id ← lift (nth frames 3)
        msg_id ← lift (nth frames 4)
        subsystem ← lift (nth frames 5)
        topic_frame ← lift (nth frames 7)
        topic ← lift (as_text topic_frame)
        denied ← gets (check_if_protected_topic env user_id topic)
        let header = publisher ∷ str "" ∷ proto ∷ user_id ∷ msg_id ∷ subsystem ∷ str "error" ∷ []
        external_from frames publisher topic_frame header denied)
      else pure tt

  -- The buses that `_peer_list` looks at, for a bus that is `None` or named.
  unfoldable pub buses_of : Value → String → Action Buses
  buses_of null platform = gets (λ s. get_or platform s.subscriptions [])
  buses_of bus platform = do
    name ← lift (as_text bus)
    modify (λ s. record s { subscriptions = read_bus platform name s.subscriptions })
    gets (λ s. (name, topics_of platform name s.subscriptions) ∷ [])

  unfoldable pub list_from : Value → Value → Action Value
  list_from peer msg = do
    prefix_value ← lift (get_item msg "prefix")
    bus ← lift (get_item msg "bus")
    subscribed ← lift (get_item msg "subscribed")
    backwards ← lift (get_item msg "reverse")
    is_all ← lift (get_default msg "all_platforms" (bool false))
    let platform = if truthy is_all then "all" else "internal"
    buses ← buses_of bus platform
    prefix ← lift (as_text prefix_value)
    pure (
        str (
          env.dumps (
            list (to_items (list_buses peer prefix (truthy subscribed) (truthy backwards) buses)))))

  unfoldable pub settle_list : Result Value × Service → Result Value × Service
  settle_list (raised key_error, s) = (ok (list (to_items [])), s)
  settle_list r = r

  unfoldable pub or_empty : Action Value → Action Value
  or_empty m s = settle_list (m s)

  -- `_peer_list`
  unfoldable pub peer_list : Frames → Action Value
  peer_list frames =
      if ltb 7 (length frames)
      then (do msg ← lift (nth frames 7); peer ← lift (nth frames 0); or_empty (list_from peer msg))
      else pure (list (to_items []))

  -- The handlers by operation: what they return is `none` for Python's `None`.
  unfoldable pub dispatch : String → Frames → Value → Action (Option Value)
  dispatch op frames user_id =
      if op == "subscribe"
      then (do b ← peer_subscribe env frames; pure (some (bool b)))
      else if op == "publish"
      then (do n ← peer_publish env frames user_id; pure (count_value n))
      else if op == "unsubscribe"
      then (do b ← peer_unsubscribe env frames; pure (some (bool b)))
      else if op == "synchronize"
      then (do peer_sync env frames; pure none)
      else if op == "auth_update"
      then (do update_caps_users frames; pure none)
      else if op == "protected_update"
      then (do update_protected_topics frames; pure none)
      else if op == "external_list"
      then (do b ← update_external_subscriptions frames; pure (some (bool b)))
      else if op == "external_publish"
      then (do external_to_local_publish frames; pure none)
      else if op == "error" || op == "request_response"
      then pure none
      else raise attribute_error

  -- [sender, recipient, proto, user_id, msg_id, subsystem]
  unfoldable pub response_header : Frames → Value → Frames
  response_header (sender ∷ recipient ∷ proto ∷ _ ∷ msg_id ∷ subsystem ∷ rest) user_id =
      sender ∷ recipient ∷ proto ∷ user_id ∷ msg_id ∷ subsystem ∷ []
  response_header frames user_id = []

  unfoldable pub respond : Frames → Value → Option Value → Response
  respond frames user_id none = reply []
  respond frames user_id (some result) =
      reply (response_header frames user_id ++ str "request_response" ∷ result ∷ [])

  -- an `IndexError` of a publish is answered by an empty response
  unfoldable pub settle_publish : Result (Option Value) × Service → Result (Option Value) × Service
  settle_publish (raised index_error, s) = (ok none, s)
  settle_publish r = r

  unfoldable pub or_no_response : Action (Option Value) → Action (Option Value)
  or_no_response m s = settle_publish (m s)

  unfoldable pub handle_op : String → Frames → Value → Action Response
  handle_op op frames user_id =
      if op == "list"
      then (do
        result ← peer_list frames
        pure (reply (response_header frames user_id ++ str "list_response" ∷ result ∷ [])))
      else (do
        result ←
            (if op == "publish"
              then or_no_response (dispatch op frames user_id)
              else dispatch op frames user_id)
        pure (respond frames user_id result))

  -- An operation that is no text, like a text that is unknown, meets `op.decode`.
  unfoldable pub handle_frame : Value → Frames → Value → Action Response
  handle_frame (str op) frames user_id = handle_op op frames user_id
  handle_frame v frames user_id = raise attribute_error

  -- `handle_subsystem`
  unfoldable pub handle_subsystem : Frames → Value → Action Response
  handle_subsystem frames user_id = if ltb (length frames) 7 then pure refused else (do
    subsystem ← lift (nth frames 5)
    op ← lift (nth frames 6)
    (if is_text subsystem "pubsub" then handle_frame op frames user_id else pure (reply [])))
