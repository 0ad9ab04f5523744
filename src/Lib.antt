-- ===== src/Lib.antt =====
-- Verification library of BroKnowMyQQBot, a QQ bot runtime in Rust.
--
-- The program and its parts. Adapters (crates/adapter-qqbot, crates/adapter-onebot11) turn platform
-- messages into events; the runtime (crates/bot-core) claims each event in a deduplication store,
-- hands it to handlers through routers, and commits or releases the claim. Plugins
-- (crates/plugin-api, crates/plugin-host) are identified, admitted and limited by the host.
--
-- Files. `Prelude` holds the shared names, lists, and hash maps as association lists.
-- `Dedup` models crates/bot-core/src/dedup.rs: `MemoryState` is the state under the store's mutex,
-- `attempt` is one pass of the loop of `claim`, `commit` and `release` are the methods of those
-- names, `settle` is what the destructors of a call's pin and guard do; `Dedup/System` runs many
-- calls against one store as a list of events. A wake-up is one `resumes` event, so a history is
-- finite and no fuel is needed; the eviction loop recurs on its queue.
-- `Router` models crates/bot-core/src/router.rs. `Router/Commands` is `CommandRouter`: a text is its
-- list of code points, a handler is a value that the router stores, `parse` and `handle` give the
-- invocation and the handler that runs. `Router/Events` is `EventRouter`: filters, middleware and
-- handlers are functions of a state that they share, whose runs return or panic; `enter`, `finish`
-- and `run_after` are the phases of a route, and the calls of hooks are recorded in order.
-- `Webhook` models crates/adapter-qqbot/src/webhook.rs: `SeenEvents` is the table of event
-- identifiers with `lookup`, `reserve`, `accept` and `release`; `Webhook/Dispatch` is
-- `dispatch_response`, whose end, under the lock of the table, is `admit`; `Webhook/Replay` runs the
-- steps of many requests as a list. A payload is an identifier, a type and data that only the
-- mapping reads; the mapping, the clock and the answers of the bounded queue are arguments.
-- `PluginId` models crates/plugin-api/src/id.rs: `new_plugin_id` is `PluginId::new`.
-- `Runtime` models crates/bot-core/src/runtime.rs for one claim: a task is a function on the state
-- (`RuntimeState`: a world, the outstanding claims, the calls made), which ends early where it is
-- dropped; `Runtime/Recovery` holds `claim_event`, `process_claimed_event`, the background retries and
-- `recover_cancelled_claim`; `Runtime/Protocol` is the promised order of calls, as an automaton.
-- Retries are counted as in the source; loops without a bound take the rounds that the task lives.
-- `Runtime/Memory` puts the in-memory store of `Dedup` behind the runtime.
-- `Assets` models crates/plugin-host/src/assets.rs: each method of `AssetStore` is a function on
-- `AssetState`; `Assets/Valid` and `Assets/Insertion` are the accounts of bytes and counts,
-- `Assets/History` runs lists of calls, `Assets/Scope` follows one asset. Instants are nanoseconds.
-- `Permission` models the HTTP permissions of crates/plugin-api/src/manifest.rs: their validation and
-- `url_path_matches_prefix`. `Http` models crates/plugin-host/src/http.rs: `authorized_target` and the
-- limits; `Http/Address` the tests of addresses; `Http/Execute` is `execute`, whose loop over redirects
-- is recursion on the redirects that are left, over a `Network` of answers for each round.
-- `Token` models the cache of crates/qqbot-protocol/src/auth.rs: `Token/Access` is every path of
-- `access_token`, whose two reads may see different states; `Token/Calls` runs lists of steps of calls.
-- `Metrics` models crates/bot-core/src/metrics.rs: the counters as a record, its methods as steps.
--
-- Not modelled: network and file access, TLS, JSON and TOML parsing, SQLite, WebAssembly execution
-- and the terminal interface, which the sources only call. UUIDs that the store draws are arguments.
-- A `watch` channel counts its notifications without bound. In the event router, the hooks that run
-- when a future is dropped before it ends; in the webhook, the signature check and the listener; the
-- runtime's queue, partitions and shutdown order; in the executor of plugin requests, the reading of
-- credentials from the environment; the rest of a manifest, of the plugin host and of the protocol
-- clients, the other adapters and the configuration.
pub mod Assets
pub mod Dedup
pub mod Http
pub mod Metrics
pub mod Permission
pub mod PluginId
pub mod Prelude
pub mod Router
pub mod Runtime
pub mod Token
pub mod Webhook
