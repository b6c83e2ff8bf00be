-- ===== src/PubSub/Parse.antt =====
-- How the requests of the pubsub subsystem are read: what the handlers take from a message, and
-- what they raise where it is not there.
use volttron_core.Prelude.{
  String, Bool, false, Option, none, some, List, [], ◌∷◌, add, string_eq, pair_eq,
}
use volttron_core.Py.Dict.{Dict}
use volttron_core.Py.Result
use volttron_core.Py.Result.{
  Result, ok, raised, key_error, value_error, type_error, assertion_error,
}
use volttron_core.Py.Value.{Value, null, bool, truthy, value_eq}
use volttron_core.Py.Access.{get_item, get_default, as_text, one_or_many, items_of, iterate}
use volttron_core.PubSub.Subscriptions.{Item, Prefix, every, these}

-- `(peer's) prefix, bus, is_all` of a subscribe message; `none` where a key is missing
unfoldable pub subscribe_request : Value → Result (Option (List String × String × Bool))
subscribe_request msg = elim (get_item msg "prefix") [
  | raised e ↦ elim e [ key_error ↦ ok none | other ↦ raised other ]
  | ok prefix ↦ elim (get_item msg "bus") [
    | raised e ↦ elim e [ key_error ↦ ok none | other ↦ raised other ]
    | ok bus ↦ Result.◌>>=◌ (get_default msg "all_platforms" (bool false)) λ is_all.
        Result.◌>>=◌ (one_or_many prefix) λ prefixes.
          Result.◌>>=◌ (as_text bus) λ bus_name. ok (some (prefixes, bus_name, truthy is_all))
  ]
]

prefix_of : Value → Result Prefix
prefix_of null = ok every
prefix_of v = Result.◌>>=◌ (one_or_many v) λ prefixes. ok (these prefixes)

-- one entry of an unsubscribe message: its bus and its prefix
unfoldable pub unsubscribe_request : Value → Result (String × Prefix)
unfolding prefix_of
unsubscribe_request entry = Result.◌>>=◌ (get_item entry "prefix") λ prefix.
    Result.◌>>=◌ (get_item entry "bus") λ bus.
      Result.◌>>=◌ (prefix_of prefix) λ p. Result.◌>>=◌ (as_text bus) λ bus_name. ok (bus_name, p)

-- `unsubmsg`: the message itself if it has "internal" or "all", or else the message as the
-- entry of "internal"
unfoldable pub unsubscribe_entries : Value → Result (Dict Value)
unsubscribe_entries msg = elim (get_item msg "internal") [
  | ok sub ↦ items_of msg
  | raised e ↦ elim e [
    | key_error ↦ elim (get_item msg "all") [
      | ok sub ↦ items_of msg
      | raised f ↦ elim f [ key_error ↦ ok (("internal", msg) ∷ []) | other ↦ raised other ]
    ]
    | other ↦ raised other
  ]
]

-- the set of the triples of a synchronize message
bus_items : String → String → List String → List Item → List Item
bus_items platform bus [] acc = acc
bus_items platform bus (prefix ∷ prefixes) acc =
    bus_items platform bus prefixes (add (platform, (bus, prefix)) acc)

platform_items : String → Dict Value → List Item → Result (List Item)
unfolding bus_items
platform_items platform [] acc = ok acc
platform_items platform ((bus, topics) ∷ buses) acc =
    Result.◌>>=◌ (iterate topics)
      λ prefixes. platform_items platform buses (bus_items platform bus prefixes acc)

unfoldable pub sync_items : Dict Value → List Item → Result (List Item)
unfolding platform_items
sync_items [] acc = ok acc
sync_items ((platform, buses) ∷ platforms) acc =
    Result.◌>>=◌ (items_of buses)
      λ ds. Result.◌>>=◌ (platform_items platform ds acc) λ acc'. sync_items platforms acc'
