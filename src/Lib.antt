-- ===== src/Lib.antt =====
-- The message bus of VOLTTRON (volttron-core): its router, the publish and subscribe service, the
-- dispatcher of JSON-RPC messages, and the configuration store.
--
-- An agent connects to the router as a peer and sends messages, lists of frames. The router hands a
-- message for the subsystem "pubsub" to `PubSubService.handle_subsystem`, which keeps the
-- subscriptions of the peers, checks who may publish to a protected topic, and sends a published
-- message to the subscribers and to the platforms that are connected. Agents call each other's methods
-- with JSON-RPC messages, which a `Dispatcher` takes apart and answers. One of the services called so
-- keeps the configurations of the agents, and tells a connected agent what changes.
--
-- Files:
--   Prelude     shared names, Boolean tests, equality as an interface, lists as Python's sets
--   Py          Python's dictionaries, values, exceptions, methods that raise, and their invariants
--   Wire        the ZMQ socket, which is a parameter: its answer may depend on all earlier attempts
--   PubSub      volttron/services/routing/pubsub_service.py (under src/ of the repository):
--     Subscriptions   `_peer_subscriptions`, and `_add_peer_subscription`, `_sync` and the loops of
--                     `_peer_subscribe` and `_peer_unsubscribe` on it
--     Protected       class `ProtectedPubSubTopics`
--     Service         the fields of `PubSubService`, `_send`, `peer_drop`, the external subscriptions
--     Publish         `_check_if_protected_topic`, `_distribute`, `_distribute_internal`,
--                     `_distribute_external`, `_peer_publish`
--     Parse, Requests `_peer_subscribe`, `_peer_unsubscribe`, `_peer_sync`, the entries of `_peer_list`
--     Updates         `_update_caps_users`, `_update_protected_topics`, `_load_protected_topics`
--     Handler         `_update_external_subscriptions`, `_external_to_local_publish`, `_peer_list`,
--                     `handle_subsystem`
--     the other files of PubSub hold the proofs: Sending what a publish sends, Authorization what a
--                     refused publisher is sent, Responses whole requests, and so on
--   Router      volttron/server/router/base_router.py, router.py and servicepeer.py:
--     State           the fields of `BaseRouter` and `Router`, and the hooks as calls of `PubSubService`
--     Send            `BaseRouter._send`
--     Peers           `_distribute`, `_drop_peer`, `_add_peer`
--     Subsystems      `Router.handle_subsystem`
--     Route           `BaseRouter.route`
--     Steady, Invariant, Termination, Forgotten, Forwarding: the proofs
--   JsonRpc     volttron/utils/jsonrpc.py: the functions that build and check messages, and
--               `JsonRpcData.parse` of a dictionary
--     Dispatch        `Dispatcher.dispatch` and `_dispatch_one`
--     Laws, Answers, Requests: the proofs
--   Config      the configuration store of the platform:
--     Links           volttron/utils/storeutils.py
--     Store           volttron/services/config_store/config_store_service.py: the fields of
--                     `ConfigStoreService`, and the calls that read them
--     Service         the calls that change them, `process_raw_config`
--     Startup         `process_store`, and the loop of `_setup`
--     View, Spec      what clients see of the store, and what each call is to do to that
--     Agent           volttron/client/vip/agent/subsystems/configstore.py: the fields of `ConfigStore` and
--                     `_add_refs`, `_delete_refs`, `_update_refs`
--     Agent/Gather    `_process_links`, `_gather_child_configs`, `_gather_config`, `_gather_affected`
--     Agent/Local     `_initial_update`, and what `_update_config` changes
--     Agent/Calls     `_update_config`, `_process_callbacks`, `_onconfig`, `list`, `get`, `subscribe`,
--                     `unsubscribe_all`
--     Agent/Preset    `set_default`, `delete_default`
--     the other files of Config and of Config/Agent hold the proofs
--   Auth        volttron/services/auth/auth_service.py:
--     Fields, Entry   `AuthEntry`, `String`, `List`
--     Reading         `AuthFile.read`: `_get_entries`, `_use_groups_and_roles`
--     Indices, File   the other methods of `AuthFile`
--     User            `dump_user`, `load_user`
--     Service         the fields of `AuthService`, `read_auth_file`, `_send_update`
--     Failures        `_update_auth_entry`, `_update_auth_pending`, and the calls that approve, deny and
--                     delete failures
--     Calls           the calls that change the file
--     Authenticate    `authenticate`, `get_authorizations`
--     Requests, Zap   `zap_loop`
--     the other files of Auth hold the proofs
--   Examples    the theorems at concrete inputs
--
-- How the model stands to the code. A method is a function from the object to its result, which may
-- be an exception, and the object afterwards. A set is the list of its members, a dictionary the list
-- of its items in the order of insertion; the order in which Python walks a set is not fixed by the
-- language, and the model walks it in the order in which the members came. Frames are the values
-- that `jsonapi.loads` returns, without floating-point numbers; a key, a topic or a prefix that is no
-- text raises `TypeError`. What goes out is recorded before `serialize_frames`, with a mark whether it
-- went through it.
--
-- Parameters: the answers of the socket, `re` matching, `json.dumps`, the text of a refusal, and the
-- name of the instance (`Env`). The routing service is seen through its name and the list of the
-- connected platforms (`ExtRouter`); its `send_external` raises no `ZMQError`.
--
-- The router's parameters are in `Platform`: whether two frames of a message are one object (Python's
-- `is`), the identity of the socket, the settings that `query` reads, and the services for routing
-- tables and external calls. The callbacks of `ServicePeerNotifier` are recorded as notices.
--
-- The dispatcher's parameters are what a subclass of `Dispatcher` implements, on a state of its own,
-- and how Python prints values and exceptions (`Handlers`). The configuration store's are the parsers
-- of JSON and CSV, the clock, the connected peers, and what a call of an agent raises (`Env`). Calls
-- of agents are recorded as `updates`. While a call waits for an agent no other call runs.
-- `PersistentDict.async_sync` queues a copy for a worker thread: the model records the copy
-- (`handed_over`), and takes it to be in the file when a store is read from there again. `lower` is
-- that of ASCII letters. A dictionary that changes its size while it is walked makes the walk raise
-- `RuntimeError`, as in CPython. On the agents' side the parameters are the matching of patterns, what
-- callbacks raise, and what the platform pushes when it is asked for configurations (`AgentEnv`); calls
-- of callbacks are recorded as `notices`. The objects that `_gather_config` makes refer to each other by name in a table (`Gathered`), since a configuration may contain itself.
--
-- The authorization file is the value that `_read` loads from it, {} where that raises; a value that is
-- dumped is loaded again as it is. The parameters are `str` of a value that is no text, `re`, and the user
-- ids that are drawn, by the number of the reading and the entry (`AuthEnv`); `list.sort`, of which the
-- order `__lt__` is no order, the connected peers, what a send raises, `encode_key`, `int`, and the users
-- and processes of the system (`ServiceEnv`); the clock and `random` (`Clock`). Time is counted in ticks.
-- Credentials of a connection are the encoded key as a text, or bytes (`Credential`). Two dictionaries
-- are equal if their items are in the same order, which matters for no field but a user id. What other
-- greenlets do while `add` sleeps (`watch_file` may read the file again) is the parameter `others` of the
-- calls that decide upon failures.
--
-- Fuel: `_drop_peer` and `_distribute` call each other. `drop_peer_within` counts the rounds and
-- `drop_peer` gives it one more than there are peers, since each round takes a peer out. `_follow_links` calls
-- itself with one more name seen, so `check_for_recursion` gives it one more than there are names.
-- `_gather_affected` calls itself with one more name marked, so it gets one more than there are
-- referrers, and `_gather_config` two more than there are configurations. All other loops are over lists.
--
-- Not modelled: the RabbitMQ agent (`_rabbitmq_agent` is None), logging, `set` and `delete` of the agents'
-- `ConfigStore`, which only call the platform, RabbitMQ and `_upgrade` in the authorization service, and
-- the rest of the platform: start-up, the sockets, the routing service, control, agents and their tools.
pub mod Prelude
pub mod Py
pub mod Wire
pub mod PubSub
pub mod Router
pub mod JsonRpc
pub mod Config
pub mod Auth
mod Examples
