-- ===== src/PubSub/Publish.antt =====
-- Publishing: `_check_if_protected_topic`, `_distribute_internal`, `_distribute_external`,
-- `_distribute`, `_peer_publish`, `_external_to_local_publish` of `PubSubService`.
use text.Mathlib.Text.{starts_with}
use volttron_core.Prelude.{
  ℕ, ◌+◌, String, Bool, true, false, Option, none, some, List, [], ◌∷◌, ◌++◌, contains, is_empty,
  length, ltb, if◌then◌else◌, string_eq, ◌&&◌, ◌||◌, nat_eq,
}
use volttron_core.Py.Dict.{Dict, lookup}
use volttron_core.Py.Exec.{pure, raise, lift, gets, modify, ◌>>=◌, ◌>>◌}
use volttron_core.Py.Result
use volttron_core.Py.Result.{Result, ok, raised, key_error, value_error, attribute_error}
use volttron_core.Py.Value.{Value, str, dict, to_fields}
use volttron_core.Py.Access.{get_item, nth, set, as_text}
use volttron_core.Wire.{Frames}
use volttron_core.PubSub.Protected
use volttron_core.PubSub.Service.{
  Service, Env, Action, send, deliver, local_subscribers, read_bus, external_sends,
}

-- self._user_capabilities[user]; the keys are texts
unfoldable pub capabilities_of : Value → Dict (List String) → Option (List String)
capabilities_of (str user) d = lookup user d
capabilities_of _ d = none

-- set(xs) <= set(ys)
unfoldable pub is_subset : List String → List String → Bool
is_subset [] ys = true
is_subset (x ∷ xs) ys = contains x ys && is_subset xs ys

-- msg["bus"], or `none` where there is no such key
unfoldable pub bus_of : Value → Result (Option Value)
bus_of msg = elim (get_item msg "bus") [
  | ok v ↦ ok (some v)
  | raised e ↦ elim e [ key_error ↦ ok none | other ↦ raised other ]
]

-- The platforms that subscribe to a prefix of the topic.
unfoldable pub any_prefix : String → List String → Bool
any_prefix topic [] = false
any_prefix topic (prefix ∷ prefixes) = starts_with topic prefix || any_prefix topic prefixes

unfoldable pub external_subscribers : String → Dict (List String) → List String
external_subscribers topic [] = []
external_subscribers topic ((platform, prefixes) ∷ d) =
    let rest = external_subscribers topic d in
    if any_prefix topic prefixes then platform ∷ rest else rest

module _ (env : Env) where
  -- `_check_if_protected_topic`: `none`, or the message for the publisher
  unfoldable pub check_if_protected_topic : Value → String → Service → Option String
  unfolding capabilities_of
  check_if_protected_topic user topic s =
      elim (Protected.get env.matches topic s.protected_topics) [
        | none ↦ none
        | some required ↦
            if is_empty required then none else elim (capabilities_of user s.user_capabilities) [
              | none ↦ none
              | some caps ↦
                  if is_subset required caps then none else some (env.denial topic required caps)
            ]
      ]

  unfoldable pub deliver_on : Frames → Value → Value → Option Value → Action (ℕ × Frames)
  deliver_on frames publisher topic_frame none = pure (0, frames)
  deliver_on frames publisher topic_frame (some bus_value) = do
    bus ← lift (as_text bus_value)
    topic ← lift (as_text topic_frame)
    modify (λ s. record s {
      subscriptions = read_bus "internal" bus (read_bus "all" bus s.subscriptions);
    })
    subscribers ← gets (λ s. local_subscribers bus topic s.subscriptions)
    frames' ← deliver env subscribers publisher frames
    pure (length subscribers, frames')

  -- `_distribute_internal`: the count of the subscribers, and the frames as the loop leaves them
  unfoldable pub distribute_internal : Frames → Action (ℕ × Frames)
  distribute_internal frames = do
    publisher ← lift (nth frames 0)
    topic_frame ← lift (nth frames 7)
    msg ← lift (nth frames 8)
    bus ← lift (bus_of msg)
    deliver_on frames publisher topic_frame bus

  unfoldable pub external_publish : List String → Frames → Action (Unit {0})
  external_publish platforms frames = modify λ s. elim s.ext_router [
    | none ↦ s
    | some router ↦ record s { external = s.external ++ external_sends platforms frames }
  ]

  -- `_distribute_external`. No `ZMQError` comes out of `send_external`, so the handler for it is not modelled.
  unfoldable pub distribute_external : Frames → Action ℕ
  distribute_external frames = do
    proto ← lift (nth frames 2)
    user_id ← lift (nth frames 3)
    msg_id ← lift (nth frames 4)
    subsystem ← lift (nth frames 5)
    topic_frame ← lift (nth frames 7)
    payload ← lift (nth frames 8)
    topic ← lift (as_text topic_frame)
    platforms ← gets (λ s. external_subscribers topic s.ext_subscriptions)
    let frames' =
        str ""
        ∷ proto
        ∷ user_id
        ∷ msg_id
        ∷ subsystem
        ∷ str "external_publish"
        ∷ topic_frame
        ∷ payload
        ∷ []
    external_publish platforms frames'
    pure (length platforms)

  -- The frames that tell a publisher that it may not publish.
  unfoldable pub denied_reply : Frames → Value → String → Result Frames
  denied_reply frames user_id errmsg = Result.◌>>=◌ (nth frames 0) λ publisher.
      Result.◌>>=◌ (nth frames 2) λ proto. Result.◌>>=◌ (nth frames 4) λ msg_id.
        Result.◌>>=◌ (nth frames 5) λ subsystem. ok (
          publisher
          ∷ str ""
          ∷ proto
          ∷ user_id
          ∷ msg_id
          ∷ str "error"
          ∷ str "-32001"
          ∷ str errmsg
          ∷ str ""
          ∷ subsystem
          ∷ [])

  unfoldable pub distribute_from : Frames → Value → Option String → Action ℕ
  distribute_from frames user_id (some errmsg) = do
    publisher ← lift (nth frames 0)
    reply ← lift (denied_reply frames user_id errmsg)
    send env reply publisher
    pure 0
  distribute_from frames user_id none = do
    internal ← distribute_internal frames
    external_count ← distribute_external internal.1
    pure (internal.0 + external_count)

  -- `_distribute`
  unfoldable pub distribute : Frames → Value → Action ℕ
  distribute frames user_id = do
    topic_frame ← lift (nth frames 7)
    payload ← lift (nth frames 8)
    topic ← lift (as_text topic_frame)
    denied ← gets (check_if_protected_topic user_id topic)
    distribute_from frames user_id denied

  -- What `_peer_publish` puts in the place of the message.
  unfoldable pub publish_message : Value → Value → Result Value
  publish_message peer msg = Result.◌>>=◌ (get_item msg "headers") λ headers.
      Result.◌>>=◌ (get_item msg "message") λ message. Result.◌>>=◌ (get_item msg "bus") λ bus. ok (
        dict (
          to_fields
            (("sender", peer) ∷ ("bus", bus) ∷ ("headers", headers) ∷ ("message", message) ∷ [])))

  unfoldable pub publish_from : Frames → Value → Result Value → Action (Option ℕ)
  publish_from frames user_id (ok msg) = do n ← distribute (set frames 8 msg) user_id; pure (some n)
  publish_from frames user_id (raised key_error) = pure (some 0)
  publish_from frames user_id (raised e) = raise e

  -- `_peer_publish`: `none` where there are too few frames
  unfoldable pub peer_publish : Frames → Value → Action (Option ℕ)
  peer_publish frames user_id =
      if ltb 8 (length frames)
      then (do
        peer ← lift (nth frames 0)
        msg ← lift (nth frames 8)
        publish_from frames user_id (publish_message peer msg))
      else pure none
