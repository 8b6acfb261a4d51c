-- ===== src/Lib.antt =====
-- The SDKWork RPC framework: what its crates decide, modelled as functions on values.
--
-- The program has five crates. crates/sdkwork-rpc-core proves who calls: service identities from mTLS
-- certificates and caller contexts that are signed and verified. crates/sdkwork-rpc-resilience
-- decides whether a failed call is retried and whether a target is called at all.
-- crates/sdkwork-rpc-client resolves names to endpoints, picks one, connects, and puts signed metadata on
-- calls. crates/sdkwork-rpc-discovery registers an instance and renews its lease;
-- crates/sdkwork-rpc-server checks callers, serves, and shuts down in order.
--
-- Files, and the code that they are about:
--   Prelude        tests on numbers, lists, text, maps, durations and Rust's integers
--   External       the crates that the framework calls (tonic, the codec, x509_parser), as records
--                  of operations with their documented laws
--   Core           crates/sdkwork-rpc-core/src: Error (lib.rs), Identifier and ServiceIdentity
--                  (service_identity.rs), CallerContext with Signer and Verifier and Time
--                  (caller_context.rs), Profile and ResolverProfile (profile.rs), Surface (surface.rs),
--                  Identity (identity.rs), Bootstrap (bootstrap.rs)
--   Resilience     crates/sdkwork-rpc-resilience/src: Policy (lib.rs), Backoff (backoff.rs), Retry
--                  (lib.rs, idempotency.rs, pushback.rs), CircuitBreaker (circuit_breaker.rs),
--                  whose Threads takes it one atomic operation at a time: Alone and Methods one thread
--                  by itself, Progress and Grants any interleaving, Stale one of two threads
--   Client         crates/sdkwork-rpc-client/src: Resolver (resolver.rs), LoadBalance
--                  (load_balance.rs), Discovery (discovery_resolver.rs), Watch (discovery_resolver.rs,
--                  watching_discovery_resolver.rs), whose Session is the watching resolver with the one
--                  that it wraps, Invocation (lib.rs),
--                  Metadata (metadata.rs), Tls (tls.rs), Transport (transport.rs),
--                  RetryBudget (retry_budget.rs)
--   Discovery      crates/sdkwork-rpc-discovery/src: Endpoint (endpoint.rs), Headers
--                  (rpc_metadata.rs), Announcement (metadata.rs), Registration and Renew
--                  (lifecycle.rs), Registry (the requests that lifecycle.rs sends)
--   Server         crates/sdkwork-rpc-server/src: Security (security.rs), Error, Serve and Tls (lib.rs)
--   Tests          concrete instances, and the theorems applied to them
--
-- Correspondence. A struct is a record with the source's fields, an enum a data type, a function or
-- method a definition of the same name; `&mut self` comes back beside the result. A `?` is the bind of
-- Core.Error, an early return an `ensure`. A map is an association list, a `BTreeSet` a sorted list.
--
-- An async function that only awaits calls is a function of their answers. The serving functions
-- race their futures, so each is a machine: an event is the end of a future, a phase is the await
-- where the function stands, an effect is a call. A round of an endless loop is one step. The watch
-- loop and the callers of `resolve` share a cache behind a lock: a history is the sequence of what they do
-- to it, where an answer of the control plane can be stored long after the look that missed.
-- What an attempt to connect answers is an argument of the call that makes it, so that a dial can fail in one
-- round of the reconnect loop and succeed in the next.
--
-- Bounds. Numbers are unbounded; where Rust's wrap around, saturate or are checked, the operation
-- says so (`% 2 ^ 64`, `saturating_add_u32`, `checked_add`). A duration is its nanoseconds, a
-- `SystemTime` those since the Unix epoch, a signed integer. Recursion is structural. Only
-- `decimal` has fuel, n + 1 rounds to print n, which is enough since each round divides by ten.
-- Text is Unicode characters, and `byte_len` counts its bytes in UTF-8.
--
-- Not code of this repository, and so parameters: base64url, HMAC and SHA-256 (`Codec`), serde_json
-- at the payload's type (`Json`), X.509 parsing (`X509`), status codes and metadata (`Tonic`), the
-- random generator (the argument `draw`), the messages generated from the discovery protocol
-- (`DiscoveryProto`), blank and trimmed text (`TextUtils`), the metadata names of sdkwork_rpc_core_rust
-- (`MetadataNames`), files (`Files`), tonic's builders (`Transport`), the registry service (`Registry`),
-- `f64` (`Doubles`), clocks, nonces and UUIDs.
--
-- Not modelled: sockets, TLS handshakes, listening, spawning and logging, which are I/O; weak memory, since the
-- interleavings of the circuit breaker's threads are of whole atomic operations in one order.
pub mod Prelude
pub mod External
pub mod Core
pub mod Resilience
pub mod Client
pub mod Discovery
pub mod Server
mod Tests
