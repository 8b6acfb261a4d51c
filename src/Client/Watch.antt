-- ===== src/Client/Watch.antt =====
-- crates/sdkwork-rpc-client/src/watching_discovery_resolver.rs: the resolver's cache, its answers and
-- its reconnects. What a message does is a child. An `Instant` is its nanoseconds; a clock reading is an argument.
pub mod Messages
pub mod Cache
pub mod History
pub mod Answers
pub mod Session
pub mod Race
pub mod Others
pub mod Registers
use Prim.Native.String.{◌++◌}
use text.Mathlib.Text.{◌==◌ as str_eq}
use sdkwork_rpc_framework.Prelude.{
  ℕ, String, ◌+◌, ◌-◌, ◌^◌, min, max, Bool, true, false, not, ◌||◌, Option, none, some, List, [],
  ◌∷◌, is_empty, ltb, ◌==◌, if◌then◌else◌, filter,
}
use sdkwork_rpc_framework.Prelude.Rust.{
  Duration, from_millis, from_secs, as_millis, u64_max, saturating_add_u32, saturating_mul_duration,
}
use sdkwork_rpc_framework.Prelude.Map.{Map, lookup, insert, remove}
use sdkwork_rpc_framework.External.{TextUtils, DiscoveryProto}
use sdkwork_rpc_framework.Core.Error.{Result, ok, err, discovery, validation}
use sdkwork_rpc_framework.Client.Resolver.{ResolvedEndpoint}

pub record WatchLoopConfig : Type 0 where
  pub initial_reconnect_backoff : Duration
  pub max_reconnect_backoff : Duration
  pub cache_ttl : Duration

abbrev pub default_watch_config : WatchLoopConfig
default_watch_config = record {
  initial_reconnect_backoff = from_millis 500;
  max_reconnect_backoff = from_secs 30;
  cache_ttl = from_secs 15;
}

pub record CachedEndpoints : Type 0 where
  pub endpoints : List ResolvedEndpoint
  pub updated_at : ℕ

pub record WatchingDiscoveryNameResolver : Type 0 where
  pub cache : Map CachedEndpoints
  pub last_revision : ℕ
  pub watch_config : WatchLoopConfig

unfoldable pub with_watch_config : WatchLoopConfig → WatchingDiscoveryNameResolver
with_watch_config watch_config = record {
  cache = [];
  last_revision = 0;
  watch_config = watch_config;
}

unfoldable pub upsert_endpoint : List ResolvedEndpoint → ResolvedEndpoint → List ResolvedEndpoint
upsert_endpoint [] endpoint = endpoint ∷ []
upsert_endpoint (candidate ∷ rest) endpoint =
    if str_eq candidate.endpoint endpoint.endpoint
    then endpoint ∷ rest
    else candidate ∷ upsert_endpoint rest endpoint

-- `retain(|existing| existing.endpoint != uri)`.
unfoldable pub retain_others : String → List ResolvedEndpoint → List ResolvedEndpoint
retain_others uri endpoints = filter (λ existing. not (str_eq existing.endpoint uri)) endpoints

-- `cache.entry(name).or_insert_with(..)`.
abbrev pub entry_or_empty : ℕ → Option CachedEndpoints → CachedEndpoints
entry_or_empty now none = record { endpoints = []; updated_at = now }
entry_or_empty now (some cached) = cached

-- The entry is written back, or removed where no endpoint is left.
abbrev pub store_or_remove : String → CachedEndpoints → Map CachedEndpoints → Map CachedEndpoints
store_or_remove name cached cache =
    if is_empty cached.endpoints then remove name cache else insert name cached cache

-- `if let Some(cached) = cache.get_mut(name) { cached.updated_at = now }`.
abbrev pub touch : ℕ → String → Option CachedEndpoints → Map CachedEndpoints → Map CachedEndpoints
touch now name none cache = cache
touch now name (some cached) cache = insert name (record cached { updated_at = now }) cache

fresh_endpoints : Duration → ℕ → Option CachedEndpoints → Option (List ResolvedEndpoint)
fresh_endpoints ttl now none = none
fresh_endpoints ttl now (some cached) =
    if is_empty cached.endpoints
    then none
    else if ltb ttl (now - cached.updated_at)
    then none
    else some cached.endpoints

unfoldable pub cached_endpoints :
    ℕ → String → WatchingDiscoveryNameResolver → Option (List ResolvedEndpoint)
unfolding fresh_endpoints
cached_endpoints now name r = fresh_endpoints r.watch_config.cache_ttl now (lookup name r.cache)

unfoldable pub store_result :
    ℕ
    → String
    → Result (List ResolvedEndpoint)
    → WatchingDiscoveryNameResolver
    → WatchingDiscoveryNameResolver × Result (List ResolvedEndpoint)
store_result now name (err e) r = (r, err e)
store_result now name (ok endpoints) r = (
  record r { cache = insert name (record { endpoints = endpoints; updated_at = now }) r.cache },
  ok endpoints,
)

answer :
    ℕ
    → String
    → Option (List ResolvedEndpoint)
    → Result (List ResolvedEndpoint)
    → WatchingDiscoveryNameResolver
    → WatchingDiscoveryNameResolver × Result (List ResolvedEndpoint)
unfolding store_result
answer later name (some endpoints) inner r = (r, ok endpoints)
answer later name none inner r = store_result later name inner r

-- `resolve`: the cache, or the inner resolver's answer, which is then cached. The clock is read
-- once for the test and once, later, for the new entry.
unfoldable pub resolve :
    ℕ
    → ℕ
    → String
    → Result (List ResolvedEndpoint)
    → WatchingDiscoveryNameResolver
    → WatchingDiscoveryNameResolver × Result (List ResolvedEndpoint)
unfolding cached_endpoints answer
resolve now later name inner r = answer later name (cached_endpoints now name r) inner r

-- The random sample `random_range(0..=base)` of milliseconds is `draw`.
unfoldable pub reconnect_backoff : (ℕ → ℕ) → ℕ → Duration → Duration → Duration
reconnect_backoff draw attempt initial max_backoff =
    let exponent = min attempt 16 in
    let base = min (saturating_mul_duration initial (2 ^ exponent)) max_backoff in
    if base == 0 then initial else from_millis (draw (min (as_millis base) u64_max))

-- One round of `run_reconnect_loop`: the next attempt's number, and the time to sleep.
unfoldable pub reconnect_round : (ℕ → ℕ) → WatchLoopConfig → ℕ → Result (Unit {0}) → ℕ × Duration
unfolding reconnect_backoff
reconnect_round draw config attempt (ok done) = (0, 0)
reconnect_round draw config attempt (err error) = (
  saturating_add_u32 attempt 1,
  reconnect_backoff draw attempt config.initial_reconnect_backoff config.max_reconnect_backoff,
)
