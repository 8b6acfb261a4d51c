-- ===== src/Client/Watch/Others.antt =====
-- Messages about one service leave the entries of others in the watch cache of
-- crates/sdkwork-rpc-client/src/watching_discovery_resolver.rs alone.
use text.Mathlib.Text.{◌==◌ as str_eq}
use sdkwork_rpc_framework.Prelude.{
  ℕ, String, ◌≡◌, refl, inl, inr, false, not, ◌||◌, Option, none, some, arith, Bool-cases,
}
use sdkwork_rpc_framework.Prelude.Map.{Map, lookup, insert, lookup-insert, lookup-remove}
use sdkwork_rpc_framework.External.{TextUtils, DiscoveryProto}
use sdkwork_rpc_framework.Client.Resolver.{ResolvedEndpoint}
use sdkwork_rpc_framework.Client.Watch.{
  CachedEndpoints, WatchingDiscoveryNameResolver, store_or_remove, touch,
}
use sdkwork_rpc_framework.Client.Watch.Messages.{
  serves, event_of, upserted, apply_instance, apply_to_cache, apply_message,
}

module _ (text : TextUtils) (proto : DiscoveryProto) where
  open proto use {ServiceInstance, WatchMessage, WatchEventType}

  -- Another service's entry.
  module _ (other name : String) (apart : str_eq other name ≡ false) where
    other-insert :
        (entry : CachedEndpoints) (cache : Map CachedEndpoints)
        → lookup other (insert name entry cache) ≡ lookup other cache
    other-insert entry cache =
        ground (arith, apart, lookup-insert {V = CachedEndpoints} other name entry cache)

    other-touch :
        (now : ℕ) (o : Option CachedEndpoints) (cache : Map CachedEndpoints)
        → lookup other (touch now name o cache) ≡ lookup other cache
    other-touch now none cache = refl
    other-touch now (some cached) cache = other-insert _ cache

    other-store_or_remove :
        (entry : CachedEndpoints) (cache : Map CachedEndpoints)
        → lookup other (store_or_remove name entry cache) ≡ lookup other cache
    other-store_or_remove entry cache =
        ground (arith, apart, other-insert entry cache, lookup-remove other name cache)

    other-upserted :
        (now : ℕ) (entry : CachedEndpoints) (o : Option ResolvedEndpoint)
        (cache : Map CachedEndpoints)
        → lookup other (upserted text proto now name entry o cache) ≡ lookup other cache
    other-upserted now entry none cache = other-insert _ cache
    other-upserted now entry (some e) cache = other-insert _ cache

    other-apply_to_cache :
        (now : ℕ) (kind : WatchEventType) (o : Option ServiceInstance) (cache : Map CachedEndpoints)
        → lookup other (apply_to_cache text proto now name kind o cache) ≡ lookup other cache
    unfolding apply_instance
    other-apply_to_cache now kind none cache = refl
    other-apply_to_cache now kind (some i) cache =
        elim (Bool-cases (proto.is_deregistered kind || not (serves text proto (proto.status i)))) [
          | inl gone ↦ rw gone (other-store_or_remove _ cache)
          | inr kept ↦ rw kept (other-upserted now _ _ cache)
        ]

    pub other-apply_message :
        (now : ℕ) (message : WatchMessage) (r : WatchingDiscoveryNameResolver)
        → lookup other (apply_message text proto now name message r).cache ≡ lookup other r.cache
    unfolding apply_message
    other-apply_message now message r =
        elim (Bool-cases (proto.is_heartbeat (event_of text proto (proto.event_type message)))) [
          | inl beat ↦ rw beat (other-touch now _ r.cache)
          | inr news ↦ rw news (other-apply_to_cache now _ _ r.cache)
        ]
