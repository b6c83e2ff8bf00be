-- ===== src/Examples/PubSub.antt =====
-- The pubsub service at concrete inputs.
use text.Mathlib.Text.{starts_with}
use volttron_core.Prelude.{
  String, ◌≡◌, ◌↔◌, ◌⊎◌, refl, true, not, ◌&&◌, ◌||◌, none, some, List, [], ◌∷◌, ◌==◌, string_eq,
  pair_eq, if◌then◌else◌, contains, Distinct, length,
}
use volttron_core.Py.Dict.{has, lookup}
use volttron_core.Py.Result.{ok, raised, type_error}
use volttron_core.Py.Value.{
  Value, null, bool, str, dict, list, to_items, truthy, field, end, value_eq,
}
use volttron_core.Wire.{Frames, delivered}
use volttron_core.PubSub.Subscriptions.{Subscriptions, Item, sync, unsubscribe, every}
use volttron_core.PubSub.Subscriptions.Laws.{is_subscribed}
use volttron_core.PubSub.Subscriptions.WellFormed.{IsWellFormed}
use volttron_core.PubSub.Subscriptions.Unsubscribe.{is_subscribed-unsubscribe}
use volttron_core.PubSub.Subscriptions.Sync.{sync_exact}
use volttron_core.PubSub.Protected
use volttron_core.PubSub.Protected.{Protected, one}
use volttron_core.PubSub.Protected.Laws.{get-add_self}
use volttron_core.PubSub.Service.{Service, Env, read_bus}
use volttron_core.PubSub.Publish.{
  distribute_internal, check_if_protected_topic, distribute, capabilities_of, is_subset,
}
use volttron_core.PubSub.Handler.{handle_subsystem, reply}
use volttron_core.PubSub.Soundness.{handle_subsystem-IsWellFormed}
use volttron_core.PubSub.Delivery.{counts}
use volttron_core.PubSub.Sending.{sends, last_or, distribute_internal_exact}
use volttron_core.Py.Access.{get_item, get_default, one_or_many, as_texts, as_text}
use volttron_core.PubSub.Authorization.{check_if_protected_topic_exact, distribute_denied, Tells}
use volttron_core.PubSub.Responses.{handle_subsystem_subscribe}

abbrev pub alice : Value
alice = str "alice"

abbrev pub bob : Value
bob = str "bob"

-- Alice subscribes to devices on this platform, Bob on all platforms.
abbrev store : Subscriptions
store =
    ("internal", ("", ("devices", alice ∷ []) ∷ []) ∷ [])
    ∷ ("all", ("", ("devices", bob ∷ []) ∷ []) ∷ [])
    ∷ []

pub store-IsWellFormed : IsWellFormed store
unfolding has
store-IsWellFormed = (refl, (refl, (refl, refl, tt), tt), (refl, (refl, (refl, refl, tt), tt), tt))

-- A socket that delivers everything.
abbrev pub calm : Env
calm = record {
  socket = λ wire serialized frames. delivered;
  matches = λ pattern topic. pattern == topic;
  dumps = λ v. "";
  denial = λ topic required caps. "denied";
  instance_name = "here";
}

abbrev guarded : Protected
guarded = record { topics = ("devices", "write" ∷ []) ∷ []; patterns = [] }

abbrev pub service : Service
service = record {
  subscriptions = store;
  user_capabilities = ("alice", "read" ∷ []) ∷ [];
  protected_topics = guarded;
  ext_subscriptions = [];
  ext_router = none;
  wire = [];
  external = [];
}

abbrev renewed : List Item
renewed = ("internal", ("", "weather")) ∷ []

sync_exact_example :
    (subs' : Subscriptions) × (sync alice renewed store ≡ ok subs')
    × IsWellFormed subs'
    × ((q : Value) (p b x : String)
        → is_subscribed q p b x subs'
          ≡ (if alice == q then contains (p, (b, x)) renewed else is_subscribed q p b x store))
sync_exact_example = sync_exact alice renewed store store-IsWellFormed

is_subscribed-unsubscribe_example :
    is_subscribed alice "internal" "" "devices" (unsubscribe alice "internal" "" every store)
    ≡ (not (true && alice == alice) && is_subscribed alice "internal" "" "devices" store)
is_subscribed-unsubscribe_example =
    is_subscribed-unsubscribe alice alice "internal" "internal" "" "" "devices" every store
      store-IsWellFormed

-- For all platforms.
abbrev wish : Value
wish = dict (
    field "prefix" (list (to_items (str "weather" ∷ str "news" ∷ [])))
      (field "bus" (str "") (field "all_platforms" (bool true) end)))

abbrev subscribe_frames : Frames
subscribe_frames =
    bob ∷ str "" ∷ str "VIP1" ∷ str "" ∷ str "1" ∷ str "pubsub" ∷ str "subscribe" ∷ wish ∷ []

handle_subsystem-IsWellFormed_example :
    IsWellFormed (handle_subsystem calm subscribe_frames bob service).1.subscriptions
handle_subsystem-IsWellFormed_example =
    handle_subsystem-IsWellFormed calm subscribe_frames bob service store-IsWellFormed

handle_subsystem_subscribe_example :
    (s' : Service) × (handle_subsystem calm subscribe_frames bob service ≡ (
      ok (
          reply (
            bob
            ∷ str ""
            ∷ str "VIP1"
            ∷ bob
            ∷ str "1"
            ∷ str "pubsub"
            ∷ str "request_response"
            ∷ bool true
            ∷ [])),
      s',
    ))
    × ((q : Value) (p b x : String)
        → is_subscribed q p b x s'.subscriptions ≡ (
            "all" == p && ("" == b && contains x ("weather" ∷ "news" ∷ [])) && bob == q
            || is_subscribed q p b x store))
unfolding get_item get_default lookup one_or_many as_texts as_text truthy
handle_subsystem_subscribe_example =
    handle_subsystem_subscribe calm bob (str "") (str "VIP1") (str "") (str "1") bob wish
      (list (to_items (str "weather" ∷ str "news" ∷ []))) (bool true) ("weather" ∷ "news" ∷ []) ""
      service refl refl refl refl

abbrev report : Value
report = dict (field "bus" (str "") end)

distribute_internal_exact_example :
    (peers : List Value) × (distribute_internal calm
        (bob
          ∷ str ""
          ∷ str "VIP1"
          ∷ str ""
          ∷ str "1"
          ∷ str "pubsub"
          ∷ str "publish"
          ∷ str "devices/x"
          ∷ report
          ∷ [])
        service
      ≡ (
        ok (
          length peers,
          last_or bob peers
              ∷ str ""
              ∷ str "VIP1"
              ∷ str ""
              ∷ str "1"
              ∷ str "pubsub"
              ∷ str "publish"
              ∷ str "devices/x"
              ∷ report
              ∷ [],
        ),
        record service {
          subscriptions = read_bus "internal" "" (read_bus "all" "" store);
          wire = sends peers (
              str ""
              ∷ str "VIP1"
              ∷ str ""
              ∷ str "1"
              ∷ str "pubsub"
              ∷ str "publish"
              ∷ str "devices/x"
              ∷ report
              ∷ []);
        },
      ))
    × Distinct peers
    × ((q : Value)
        → (contains q peers ≡ true
            → (x : String) × (starts_with "devices/x" x ≡ true) × (counts q "" x store ≡ true))
          × ((x : String)
              → starts_with "devices/x" x ≡ true
              → counts q "" x store ≡ true
              → contains q peers ≡ true))
unfolding get_item lookup
distribute_internal_exact_example =
    distribute_internal_exact calm (λ wire frames. refl) bob (str "") (str "VIP1") (str "")
      (str "1") (str "pubsub") (str "publish") report "devices/x" "" [] service store-IsWellFormed
      refl

check_if_protected_topic_exact_example :
    (check_if_protected_topic calm alice "devices/x" service ≡ none) ↔ (
      (required caps : List String)
      → Protected.get calm.matches "devices/x" guarded ≡ some required
      → capabilities_of alice service.user_capabilities ≡ some caps
      → (c : String) → contains c required ≡ true
      → contains c caps ≡ true)
check_if_protected_topic_exact_example =
    check_if_protected_topic_exact calm alice "devices/x" service

refused_alice : check_if_protected_topic calm alice "devices/x" service ≡ some "denied"
unfolding check_if_protected_topic Protected.get contains is_subset
refused_alice = refl

abbrev publish_of_alice : Frames
publish_of_alice =
    alice
    ∷ str ""
    ∷ str "VIP1"
    ∷ str ""
    ∷ str "1"
    ∷ str "pubsub"
    ∷ str "publish"
    ∷ str "devices/x"
    ∷ null
    ∷ []

distribute_denied_example :
    Tells calm alice
      (record service {
        wire =
            record {
              serialized = true;
              frames =
                  alice
                  ∷ str ""
                  ∷ str "VIP1"
                  ∷ alice
                  ∷ str "1"
                  ∷ str "error"
                  ∷ str "-32001"
                  ∷ str "denied"
                  ∷ str ""
                  ∷ str "pubsub"
                  ∷ [];
              outcome = delivered;
            }
            ∷ [];
      })
      (distribute calm publish_of_alice alice service).1
    × (((distribute calm publish_of_alice alice service).0 ≡ ok 0)
        ⊎ ((distribute calm publish_of_alice alice service).0 ≡ raised type_error))
distribute_denied_example =
    distribute_denied calm alice (str "") (str "VIP1") (str "") (str "1") (str "pubsub")
      (str "publish") null alice "devices/x" "denied" [] service refused_alice

get-add_self_example :
    Protected.get calm.matches "devices" (Protected.add "devices" (one "admin") guarded)
    ≡ some ("admin" ∷ [])
unfolding Protected.is_pattern
get-add_self_example = get-add_self calm.matches "devices" (one "admin") guarded refl
