-- ===== src/Lib.antt =====
-- Kong-Rust, an API and AI gateway: verified models of its selection and admission logic.
--
-- Each file opens with the source file that it models; paths are from the repository's root.
--
-- Common: library names passed on, Boolean tests, association lists for `HashMap`s, `i32` words.
-- Health: crates/kong-proxy/src/health.rs. `Target` has the counters of one target and what a
--   report does to them; `Health` the two maps of `HealthChecker` with their locks, the reports
--   and the active round. A lock is poisoned or good for the whole of a call. The outcome of a
--   network probe (`do_http_check` under its timeout) is an argument of the model. Of the `f64`
--   interval only the test `active_interval <= 0.0` is kept. `i32` values are bit patterns that
--   wrap, as in the release profile. Log lines are left out.
-- Provider.Weighted: crates/kong-ai/src/provider/weighted.rs, the interleaved weighted
--   round-robin. `u64` sums wrap at 2 ^ 64, and the theorems say where they do not. The binary
--   search takes the greatest weight for fuel: the range loses an element at each turn.
-- Provider.Group: crates/kong-ai/src/provider/balancer.rs, the model group balancer: entries with
--   their health, the tiers by priority, the rotation counter, reports and cooldowns. It calls
--   Provider.Weighted. An `Instant` is a number of nanoseconds, read once in a call; calls follow
--   one another. A failed `expect` is an outcome (`panicked`), which the theorems exclude.
-- Provider.ModelRouter: crates/kong-ai/src/provider/router.rs, the model router: rules by regex, with
--   the weighted round-robin over the targets of a rule. `Rules` has what a configuration must be,
--   `Chosen` one resolution, `Turns` many in a row. A failed `expect` is an outcome.
--
-- Balancer: crates/kong-proxy/src/balancer.rs, the load balancer of an upstream. `Balancer` has its
--   state and the choice by each algorithm, `Calls` its making, the hash ring, the connection counts
--   and `select_with_key`, which asks Health for the healthy targets. A selection is the index of a
--   target; the code clones its address. `compute_hash`, decimal digits and the place found by the
--   binary search among equal hashes are parameters, since the standard library leaves them open.
--   The wheel is built on `i32` sums, which wrap; a negative or empty wheel is a panic, which the
--   theorems exclude. `Slots` and `Repeated` have what one turn and many in a row select.
--   `extract_hash_key`, the plain getters and the fields that only they read are
--   not modelled.
-- RateLimit: crates/kong-ai/src/ratelimit, the in-process quota store. `Types` has the types of
--   types.rs, store.rs, metrics.rs, clock.rs and the state of memory.rs; `Window` the windows, the
--   counters and the purge; `Bucket` what `admit_once` does to a bucket and to the statistics from
--   the moment that it holds the bucket's lock; `Settlement` the same for `settle_inner` and
--   `inspect_inner`. Fresh UUIDs are arguments. `Duration` and `SystemTime` are nanoseconds with
--   their overflow checks. `Ledger` states the invariant of a bucket; `Branches` and `Settled` have
--   one rule for all the branches of an admission and of a settlement, `Pending` what other calls do
--   to the record of a reservation. The clock is read before the
--   lock is taken, so the theorems say where they need that time has not gone back for a bucket.
--   Not modelled: the map of buckets, the cleanup queue, the retry of `admit`, the validation of
--   commands, and the older `MemoryRateLimiter`.
-- Router: crates/kong-router/src/traditional.rs. `Types` has the routes, requests and answers,
--   `Process` the routes made ready (`process_route`), `Order` their order (`sort_routes`), `Matching`
--   the match of one route, `Table` the router with its categories, the lookup and the cache. Texts
--   are lists of characters. `Accepts` says what a configured route accepts, the reference for the
--   match. The regex crate and the case tables of Unicode are parameters (`Engine`), and so is what
--   the cache drops. A `HashMap` is iterated in the order of its list; the categories are sorted after
--   that, and no two of them are equal.
-- Router.Stream: crates/kong-router/src/stream.rs, the router of connections: `Stream` has the routes,
--   the networks and the lookup, `Cidr` the masks, `Cuts` and `Attributes` what the texts of networks and
--   server names mean, `Networks` and `Connections` which connections a configured route accepts,
--   `Accepts` the match without the bits of the rules, `Best` the processed route that is found first and
--   `Taken` the configured route that is taken. An address is its version and its bits; the standard
--   library's parser of addresses is an argument.
-- Router.Expressions: crates/kong-router/src/expressions.rs, the router of expressions: `Expressions`
--   has the language and its parser, `Routes` the compiled routes, the lookup and the cache, `Within`
--   and `Parsed` what the parser returns, `Best` the route taken. Errors and panics are outcomes. The
--   parser's fuel is the length of its text and one: a call inside a call gets a shorter text.
-- Plugins: crates/kong-plugin-system/src/lib.rs, the plugins of a request: `Plugins` has the registry and
--   `resolve_plugins`, `Resolved` its loop, `Chosen` the plugins that it chooses. A `HashMap` is read
--   in the order of its list, and the theorem does not say in which order plugins of one priority are.
--   The execution of a phase and the validation of a plugin's JSON are not modelled.
-- Sse: crates/kong-ai/src/codec/sse.rs, the parser of server-sent events and of JSON lines. `Sse` has
--   the parser, `Drain` what its loops drain, `Chunks` streams that come in pieces, `Print` events as
--   they are written. `parse_standard` and `parse_ndjson` are one loop, by the separator and by what is
--   made of a block. Its fuel is the length of the buffer: every turn drains a character or more.
--
-- Not modelled: network and disk access, the phases of the proxy, the admin API, databases and their
--   cache, the Lua bridge, TLS, and of the AI part the conversion between the formats of providers,
--   the budgets and the accounting, most of which is JSON, SQL and HTTP; also the
--   configuration and the certificate lookup.
pub mod Common
pub mod Health
pub mod Provider
pub mod RateLimit
pub mod Router
pub mod Plugins
pub mod Sse
pub mod Balancer
