-- ===== src/Client/Watch/History.antt =====
-- Every event of the watch stream and every resolve keeps the cache of
-- crates/sdkwork-rpc-client/src/watching_discovery_resolver.rs servable.
use sdkwork_rpc_framework.Prelude.{
  ℕ, String, ◌≡◌, refl, ◌∙◌, subst, inl, inr, Bool, true, false, not, ◌||◌, Option, none, some,
  List, [], ◌∷◌, is_empty, if◌then◌else◌, arith, Bool-cases, Option-cases,
}
use sdkwork_rpc_framework.Prelude.Map.{Map, lookup}
use sdkwork_rpc_framework.External.{TextUtils, DiscoveryProto}
use sdkwork_rpc_framework.Core.Error.{Result, ok, err, ok_injective}
use sdkwork_rpc_framework.Client.Resolver.{ResolvedEndpoint}
use sdkwork_rpc_framework.Client.Watch.{
  CachedEndpoints, WatchingDiscoveryNameResolver, retain_others, entry_or_empty, touch, answer,
  store_result, resolve,
}
use sdkwork_rpc_framework.Client.Watch.Messages.{
  keep_healthy, serves, map_discovered_instance, healthy_endpoints, discover_endpoints, upserted,
  apply_instance, apply_to_cache, apply_message,
}
use sdkwork_rpc_framework.Client.Watch.Cache.{
  IsServable, AllServable, IsServing, AllServable-upsert_endpoint, AllServable-retain_others,
  AllServable-if, IsServing-insert, IsServing-store_or_remove, AllServable-entry,
}

module _ (text : TextUtils) (proto : DiscoveryProto) where
  open proto use {ServiceInstance, WatchMessage, WatchEventType}

  mapped-IsServable :
      (i : ServiceInstance) (e : ResolvedEndpoint)
      → map_discovered_instance text proto i ≡ some e
      → e.healthy ≡ true
      → IsServable e
  unfolding map_discovered_instance
  mapped-IsServable i e m up = record { up = up; weighed = ground arith }

  mapped-healthy :
      (i : ServiceInstance) (e : ResolvedEndpoint)
      → map_discovered_instance text proto i ≡ some e
      → e.healthy ≡ serves text proto (proto.status i)
  unfolding map_discovered_instance
  mapped-healthy i e m = ground arith

  IsServing-upserted :
      (now : ℕ) (name : String) (entry : CachedEndpoints) (i : ServiceInstance)
      (cache : Map CachedEndpoints)
      → IsServing cache
      → AllServable entry.endpoints
      → serves text proto (proto.status i) ≡ true
      → IsServing (upserted text proto now name entry (map_discovered_instance text proto i) cache)
  IsServing-upserted now name entry i cache w h up =
      elim (Option-cases (map_discovered_instance text proto i)) [
        | inl e ↦ rw e (IsServing-insert name entry cache w h)
        | inr (endpoint, e) ↦
            let servable = mapped-IsServable i endpoint e (mapped-healthy i endpoint e ∙ up) in
            rw e (
              IsServing-insert name _ cache w
                (AllServable-upsert_endpoint entry.endpoints endpoint h servable))
      ]

  AllServable-keep_healthy :
      (i : ServiceInstance) (o : Option ResolvedEndpoint) (es : List ResolvedEndpoint)
      → map_discovered_instance text proto i ≡ o
      → AllServable es
      → AllServable (keep_healthy text proto o es)
  AllServable-keep_healthy i none es m all = all
  AllServable-keep_healthy i (some e) es m all =
      AllServable-if e.healthy e es (mapped-IsServable i e m) all

  AllServable-healthy_endpoints :
      (is : List ServiceInstance) → AllServable (healthy_endpoints text proto is)
  unfolding healthy_endpoints
  AllServable-healthy_endpoints [] = tt
  AllServable-healthy_endpoints (i ∷ is) =
      AllServable-keep_healthy i _ (healthy_endpoints text proto is) refl
        (AllServable-healthy_endpoints is)

  IsServing-apply_instance :
      (now : ℕ) (name : String) (kind : WatchEventType) (i : ServiceInstance)
      (cache : Map CachedEndpoints)
      → IsServing cache
      → IsServing (apply_instance text proto now name kind i cache)
  unfolding apply_instance
  IsServing-apply_instance now name kind i cache w =
      let entry = entry_or_empty now (lookup name cache) in
      let h = AllServable-entry now name cache w in
      let removed = proto.is_deregistered kind || not (serves text proto (proto.status i)) in
      elim (Bool-cases removed) [
        | inl gone ↦ rw gone (
            IsServing-store_or_remove name
              (record entry { endpoints = retain_others (proto.endpoint i) entry.endpoints }) cache
              w (AllServable-retain_others (proto.endpoint i) entry.endpoints h))
        | inr kept ↦ rw kept (IsServing-upserted now name entry i cache w h (ground arith))
      ]

  -- What happens to a resolver: a message of the watch stream; a call of `resolve` that reads the
  -- clock twice and may ask the control plane, all at once; or the control plane's answer to a
  -- call that found nothing in the cache, whatever happened since then.
  pub data Event : Type 0 where
    watched : (now : ℕ) (name : String) (message : WatchMessage) → Event
    asked : (now later : ℕ) (name : String) (instances : List ServiceInstance) → Event
    stored : (later : ℕ) (name : String) (instances : List ServiceInstance) → Event

  unfoldable pub perform : WatchingDiscoveryNameResolver → Event → WatchingDiscoveryNameResolver
  perform r (watched now name message) = apply_message text proto now name message r
  perform r (asked now later name instances) =
      (resolve now later name (discover_endpoints text proto name instances) r).0
  perform r (stored later name instances) =
      (store_result later name (discover_endpoints text proto name instances) r).0

  unfoldable pub history :
      WatchingDiscoveryNameResolver → List Event → WatchingDiscoveryNameResolver
  history r [] = r
  history r (e ∷ es) = history (perform r e) es

  IsServing-touch :
      (now : ℕ) (name : String) (o : Option CachedEndpoints) (cache : Map CachedEndpoints)
      → lookup name cache ≡ o
      → IsServing cache
      → IsServing (touch now name o cache)
  IsServing-touch now name none cache e w = w
  IsServing-touch now name (some cached) cache e w =
      IsServing-insert name _ cache w (w name cached e)

  IsServing-apply_to_cache :
      (now : ℕ) (name : String) (kind : WatchEventType) (o : Option ServiceInstance)
      (cache : Map CachedEndpoints)
      → IsServing cache
      → IsServing (apply_to_cache text proto now name kind o cache)
  IsServing-apply_to_cache now name kind none cache w = w
  IsServing-apply_to_cache now name kind (some i) cache w =
      IsServing-apply_instance now name kind i cache w

  IsServing-if :
      (b : Bool) (c d : Map CachedEndpoints)
      → IsServing c
      → IsServing d
      → IsServing (if b then c else d)
  IsServing-if true c d w v = w
  IsServing-if false c d w v = v

  pub discover_endpoints-AllServable :
      (name : String) (is : List ServiceInstance) (es : List ResolvedEndpoint)
      → discover_endpoints text proto name is ≡ ok es
      → AllServable es
  unfolding discover_endpoints
  discover_endpoints-AllServable name is es e =
      elim (Bool-cases (is_empty (healthy_endpoints text proto is))) [
        | inl none_left ↦ absurd (cc (e, none_left))
        | inr some_left ↦
            subst AllServable (ok_injective (rw some_left at e)) (AllServable-healthy_endpoints is)
      ]

  IsServing-store_result :
      (later : ℕ) (name : String) (inner : Result (List ResolvedEndpoint))
      (r : WatchingDiscoveryNameResolver)
      → ((es : List ResolvedEndpoint) → inner ≡ ok es → AllServable es)
      → IsServing r.cache
      → IsServing (store_result later name inner r).0.cache
  unfolding store_result
  IsServing-store_result later name (ok es) r h w = IsServing-insert name _ r.cache w (h es refl)
  IsServing-store_result later name (err e) r h w = w

  IsServing-answer :
      (later : ℕ) (name : String) (o : Option (List ResolvedEndpoint))
      (inner : Result (List ResolvedEndpoint)) (r : WatchingDiscoveryNameResolver)
      → ((es : List ResolvedEndpoint) → inner ≡ ok es → AllServable es)
      → IsServing r.cache
      → IsServing (answer later name o inner r).0.cache
  unfolding answer
  IsServing-answer later name (some es) inner r h w = w
  IsServing-answer later name none inner r h w = IsServing-store_result later name inner r h w

  IsServing-perform :
      (r : WatchingDiscoveryNameResolver) (e : Event)
      → IsServing r.cache
      → IsServing (perform r e).cache
  unfolding perform apply_message resolve
  IsServing-perform r (watched now name message) w =
      IsServing-if _ _ _ (IsServing-touch now name _ r.cache refl w)
        (IsServing-apply_to_cache now name _ (proto.instance_of message) r.cache w)
  IsServing-perform r (asked now later name instances) w =
      IsServing-answer later name _ _ r (discover_endpoints-AllServable name instances) w
  IsServing-perform r (stored later name instances) w =
      IsServing-store_result later name _ r (discover_endpoints-AllServable name instances) w

  pub IsServing-history :
      (r : WatchingDiscoveryNameResolver) (es : List Event)
      → IsServing r.cache
      → IsServing (history r es).cache
  unfolding history
  IsServing-history r [] w = w
  IsServing-history r (e ∷ es) w = IsServing-history (perform r e) es (IsServing-perform r e w)
