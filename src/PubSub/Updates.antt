-- ===== src/PubSub/Updates.antt =====
-- What the authorization service tells `PubSubService`: `_update_caps_users`,
-- `_update_protected_topics`, `_load_protected_topics`.
use volttron_core.Prelude.{String, List, [], ◌∷◌, length, ltb, if◌then◌else◌, string_eq, nat_eq}
use volttron_core.Py.Dict.{Dict}
use volttron_core.Py.Exec.{pure, lift, modify, ◌>>=◌}
use volttron_core.Py.Result
use volttron_core.Py.Result.{
  Result, ok, raised, Exception, key_error, value_error, type_error, attribute_error, index_error,
}
use volttron_core.Py.Value.{Value, str, list, of_items}
use volttron_core.Py.Access.{get_item, nth, as_text, as_texts, items_of, iterate}
use volttron_core.Wire.{Frames}
use volttron_core.PubSub.Protected
use volttron_core.PubSub.Protected.{Protected, Capabilities, one, many}
use volttron_core.PubSub.Service.{Service, Action}

-- A body whose `KeyError` is logged, and after which the method goes on.
unfoldable pub settle_key_error : Result (Unit {0}) × Service → Result (Unit {0}) × Service
settle_key_error (raised key_error, s) = (ok tt, s)
settle_key_error r = r

unfoldable pub ignore_key_error : Action (Unit {0}) → Action (Unit {0})
unfolding settle_key_error
ignore_key_error m s = settle_key_error (m s)

-- msg["capabilities"]: for each user the list of its capabilities, as `set(caps)` reads it
user_capabilities : Dict Value → Result (Dict (List String))
user_capabilities [] = ok []
user_capabilities ((user, caps) ∷ d) =
    Result.◌>>=◌ (iterate caps)
      λ names. Result.◌>>=◌ (user_capabilities d) λ rest. ok ((user, names) ∷ rest)

-- `_update_caps_users`
unfoldable pub update_caps_users : Frames → Action (Unit {0})
unfolding user_capabilities
update_caps_users frames =
    if ltb 7 (length frames)
    then ignore_key_error (do
      msg ← lift (nth frames 7)
      caps ← lift (get_item msg "capabilities")
      users ← lift (items_of caps)
      table ← lift (user_capabilities users)
      modify (λ s. record s { user_capabilities = table }))
    else pure tt

capabilities_value : Value → Result Capabilities
capabilities_value (str c) = ok (one c)
capabilities_value (list vs) = Result.◌>>=◌ (as_texts (of_items vs)) λ cs. ok (many cs)
capabilities_value v = raised type_error

-- The loop of `_load_protected_topics` over the entries.
unfoldable pub load_entries : List Value → Protected → Result Protected
unfolding capabilities_value
load_entries [] p = ok p
load_entries (entry ∷ entries) p = Result.◌>>=◌ (get_item entry "topic") λ topic.
    Result.◌>>=◌ (get_item entry "capabilities") λ caps. Result.◌>>=◌ (as_text topic) λ name.
      Result.◌>>=◌ (capabilities_value caps) λ cs. load_entries entries (Protected.add name cs p)

-- topics_data["write-protect"], or an empty list
unfoldable pub write_protect : Value → Result (List Value)
write_protect msg = elim (get_item msg "write-protect") [
  | raised e ↦ elim e [ key_error ↦ ok [] | other ↦ raised other ]
  | ok v ↦ elim v [ list vs ↦ ok (of_items vs) | other ↦ raised type_error ]
]

-- `_load_protected_topics`: the table is replaced only if every entry is complete
unfoldable pub load_protected_topics : Value → Action (Unit {0})
unfolding write_protect
load_protected_topics msg = do
  entries ← lift (write_protect msg)
  ignore_key_error (do
    table ← lift (load_entries entries Protected.empty)
    modify (λ s. record s { protected_topics = table }))

-- `_update_protected_topics`
unfoldable pub update_protected_topics : Frames → Action (Unit {0})
unfolding load_protected_topics
update_protected_topics frames =
    if ltb 7 (length frames)
    then (do msg ← lift (nth frames 7); load_protected_topics msg)
    else pure tt
