-- ===== src/PubSub/Requests.antt =====
-- The requests of a peer but for publishing: `_peer_subscribe`, `_peer_unsubscribe`, `_peer_sync`,
-- `_peer_list`, `_update_caps_users`, `_update_protected_topics`, `_update_external_subscriptions`.
use text.Mathlib.Text.{starts_with}
use volttron_core.Prelude.{
  String, Bool, true, false, Option, none, some, List, [], ◌∷◌, ◌++◌, contains, length, ltb,
  if◌then◌else◌, string_eq, pair_eq, not, ◌&&◌, ◌||◌, ◌==◌,
}
use volttron_core.Py.Dict.{Dict}
use volttron_core.Py.Exec.{pure, raise, lift, modify, ◌>>=◌, ◌>>◌}
use volttron_core.Py.Result.{Result, ok, raised, key_error, assertion_error}
use volttron_core.Py.Value.{Value, bool, str, list, dict, of_fields, to_items, is_text, value_eq}
use volttron_core.Py.Access.{get_item, nth}
use volttron_core.Wire.{Frames}
use volttron_core.PubSub.Subscriptions.{Peers, Topics, Buses, add_prefixes, unsubscribe}
use volttron_core.PubSub.Service.{Env, Action, announce, sync_peer}
use volttron_core.PubSub.Parse

module _ (env : Env) where
  unfoldable pub subscribe_from : Value → Option (List String × String × Bool) → Action Bool
  subscribe_from peer none = pure false
  subscribe_from peer (some (prefixes, bus, is_all)) = do
    let platform = if is_all then "all" else "internal"
    modify
        (λ s. record s { subscriptions = add_prefixes peer bus prefixes platform s.subscriptions })
    modify (λ s. if is_all then announce env s else s)
    pure true

  -- `_peer_subscribe`
  unfoldable pub peer_subscribe : Frames → Action Bool
  peer_subscribe frames = if ltb (length frames) 8 then pure false else (do
    msg ← lift (nth frames 7)
    peer ← lift (nth frames 0)
    request ← lift (Parse.subscribe_request msg)
    subscribe_from peer request)

  -- The loop of `_peer_unsubscribe` over the platforms.
  unfoldable pub unsubscribe_all : Value → Dict Value → Action (Unit {0})
  unsubscribe_all peer [] = pure tt
  unsubscribe_all peer ((platform, entry) ∷ entries) = do
    request ← lift (Parse.unsubscribe_request entry)
    modify (λ s. record s {
      subscriptions = unsubscribe peer platform request.0 request.1 s.subscriptions;
    })
    modify (λ s. if platform == "all" then announce env s else s)
    unsubscribe_all peer entries

  -- `_peer_unsubscribe`
  unfoldable pub peer_unsubscribe : Frames → Action Bool
  peer_unsubscribe frames = if ltb (length frames) 8 then pure false else (do
    msg ← lift (nth frames 7)
    peer ← lift (nth frames 0)
    entries ← lift (Parse.unsubscribe_entries msg)
    unsubscribe_all peer entries
    pure true)

  unfoldable pub sync_from : Value → Result Value → Action (Unit {0})
  sync_from peer (ok (dict fields)) = do
    items ← lift (Parse.sync_items (of_fields fields) [])
    sync_peer env peer items
  sync_from peer (ok v) = raise assertion_error
  sync_from peer (raised key_error) = pure tt
  sync_from peer (raised e) = raise e

  -- `_peer_sync`
  unfoldable pub peer_sync : Frames → Action (Unit {0})
  peer_sync frames =
      if ltb 8 (length frames)
      then (do
        conn ← lift (nth frames 7)
        (if is_text conn "connected"
            then (do
              msg ← lift (nth frames 8)
              peer ← lift (nth frames 0)
              sync_from peer (get_item msg "subscriptions"))
            else pure tt))
      else pure tt

-- One topic of `_peer_list`.
list_topic : Value → String → String → Bool → Bool → String → Peers → List Value
list_topic peer bus prefix subscribed backwards topic peers =
    let member = contains peer peers in
    let passes = if backwards then starts_with prefix topic else starts_with topic prefix in
    if passes && (not subscribed || member)
    then list (to_items (str bus ∷ str topic ∷ bool member ∷ [])) ∷ []
    else []

list_topics : Value → String → String → Bool → Bool → Topics → List Value
unfolding list_topic
list_topics peer bus prefix subscribed backwards [] = []
list_topics peer bus prefix subscribed backwards ((topic, peers) ∷ topics) =
    list_topic peer bus prefix subscribed backwards topic peers
    ++ list_topics peer bus prefix subscribed backwards topics

-- The entries that `_peer_list` collects, over the buses that it looks at.
unfoldable pub list_buses : Value → String → Bool → Bool → Buses → List Value
unfolding list_topics
list_buses peer prefix subscribed backwards [] = []
list_buses peer prefix subscribed backwards ((bus, topics) ∷ buses) =
    list_topics peer bus prefix subscribed backwards topics
    ++ list_buses peer prefix subscribed backwards buses
