-- ===== src/Client/Watch/Messages.antt =====
-- crates/sdkwork-rpc-client/src/watching_discovery_resolver.rs: what a message of the watch stream does
-- to the cache; and the mapping and filter of src/discovery_resolver.rs.
use Prim.Native.String.{◌++◌}
use sdkwork_rpc_framework.Prelude.{
  ℕ, String, max, Bool, false, not, ◌||◌, Option, none, some, List, [], ◌∷◌, is_empty, ltb,
  if◌then◌else◌,
}
use sdkwork_rpc_framework.Prelude.Map.{Map, lookup, insert}
use sdkwork_rpc_framework.External.{TextUtils, DiscoveryProto}
use sdkwork_rpc_framework.Core.Error.{Result, ok, err, discovery}
use sdkwork_rpc_framework.Client.Resolver.{ResolvedEndpoint}
use sdkwork_rpc_framework.Client.Watch.{
  CachedEndpoints, WatchingDiscoveryNameResolver, upsert_endpoint, retain_others, entry_or_empty,
  store_or_remove, touch,
}

module _ (text : TextUtils) (proto : DiscoveryProto) where
  open proto use {
    InstanceStatus, is_serving_status, is_degraded_status, ServiceInstance, WatchEventType,
    unspecified, is_heartbeat, is_deregistered, WatchMessage, revision, event_type, instance_of,
  }

  -- `matches!(status, Some(Serving) | Some(Degraded))`.
  abbrev pub serves : Option InstanceStatus → Bool
  serves none = false
  serves (some s) = is_serving_status s || is_degraded_status s

  unfoldable pub map_discovered_instance : ServiceInstance → Option ResolvedEndpoint
  map_discovered_instance instance_ =
      if text.is_blank (proto.endpoint instance_)
      then none
      else some (record {
        endpoint = proto.endpoint instance_;
        weight = max (proto.weight instance_) 1;
        healthy = serves (proto.status instance_);
      })

  abbrev pub keep_healthy : Option ResolvedEndpoint → List ResolvedEndpoint → List ResolvedEndpoint
  keep_healthy none rest = rest
  keep_healthy (some e) rest = if e.healthy then e ∷ rest else rest

  -- `filter_map(map_discovered_instance).filter(|endpoint| endpoint.healthy)`.
  unfoldable pub healthy_endpoints : List ServiceInstance → List ResolvedEndpoint
  healthy_endpoints [] = []
  healthy_endpoints (instance_ ∷ rest) =
      keep_healthy (map_discovered_instance instance_) (healthy_endpoints rest)

  -- What the resolver makes of the control plane's response.
  unfoldable pub discover_endpoints : String → List ServiceInstance → Result (List ResolvedEndpoint)
  discover_endpoints name instances =
      let endpoints = healthy_endpoints instances in
      if is_empty endpoints
      then err (discovery ("no healthy instances resolved for service " ++ name))
      else ok endpoints

  abbrev pub advance_revision : Option ℕ → ℕ → ℕ
  advance_revision none last = last
  advance_revision (some r) last = if ltb 0 r then max last r else last

  abbrev pub event_of : Option WatchEventType → WatchEventType
  event_of none = unspecified
  event_of (some t) = t

  abbrev pub upserted :
      ℕ
      → String
      → CachedEndpoints
      → Option ResolvedEndpoint
      → Map CachedEndpoints
      → Map CachedEndpoints
  upserted now name entry none cache = insert name entry cache
  upserted now name entry (some endpoint) cache =
      insert name
        (record { endpoints = upsert_endpoint entry.endpoints endpoint; updated_at = now }) cache

  -- The cache after an event with an instance.
  unfoldable pub apply_instance :
      ℕ → String → WatchEventType → ServiceInstance → Map CachedEndpoints → Map CachedEndpoints
  apply_instance now name kind instance_ cache =
      let entry = entry_or_empty now (lookup name cache) in
      if is_deregistered kind || not (serves (proto.status instance_))
      then store_or_remove name
          (record entry { endpoints = retain_others (proto.endpoint instance_) entry.endpoints })
          cache
      else upserted now name entry (map_discovered_instance instance_) cache

  abbrev pub apply_to_cache :
      ℕ
      → String
      → WatchEventType
      → Option ServiceInstance
      → Map CachedEndpoints
      → Map CachedEndpoints
  apply_to_cache now name kind none cache = cache
  apply_to_cache now name kind (some instance_) cache = apply_instance now name kind instance_ cache

  -- One round of the loop of `run_watch_session`.
  unfoldable pub apply_message :
      ℕ → String → WatchMessage → WatchingDiscoveryNameResolver → WatchingDiscoveryNameResolver
  unfolding apply_instance
  apply_message now name message r =
      let kind = event_of (event_type message) in
      record r {
        last_revision = advance_revision (revision message) r.last_revision;
        cache =
            if is_heartbeat kind
            then touch now name (lookup name r.cache) r.cache
            else apply_to_cache now name kind (instance_of message) r.cache;
      }

  -- A session: messages, each with the clock that its round reads.
  unfoldable pub run_watch_session :
      String
      → List (ℕ × WatchMessage)
      → WatchingDiscoveryNameResolver
      → WatchingDiscoveryNameResolver
  run_watch_session name [] r = r
  run_watch_session name ((now, message) ∷ rest) r =
      run_watch_session name rest (apply_message now name message r)
