-- ===== src/Client/Watch/Answers.antt =====
-- What `resolve`, a watch message and a reconnect of
-- crates/sdkwork-rpc-client/src/watching_discovery_resolver.rs promise.
use text.Mathlib.Text.{◌==◌ as str_eq}
use text.Mathlib.TextEquality.{eq_iff}
use sdkwork_rpc_framework.Prelude.{
  ℕ, String, ◌-◌, ◌^◌, ◌≤◌, ◌≡◌, refl, subst, min, true, false, not, ◌||◌, Option, none, some, List,
  [], ◌∷◌, is_empty, any, All, arith,
}
use sdkwork_rpc_framework.Prelude.Rust.{Duration, as_millis, u64_max, saturating_mul_duration}
use sdkwork_rpc_framework.Prelude.Map.{Map, lookup, insert, lookup-insert, lookup-remove}
use sdkwork_rpc_framework.External.{TextUtils, DiscoveryProto}
use sdkwork_rpc_framework.Core.Error.{Result, ok, err, ok_injective}
use sdkwork_rpc_framework.Resilience.Backoff.{IsDraw}
use sdkwork_rpc_framework.Client.Resolver.{ResolvedEndpoint}
use sdkwork_rpc_framework.Client.Watch.{
  WatchLoopConfig, CachedEndpoints, WatchingDiscoveryNameResolver, with_watch_config, retain_others,
  store_or_remove, answer, fresh_endpoints, cached_endpoints, store_result, resolve,
  reconnect_backoff,
}
use sdkwork_rpc_framework.Client.Watch.Messages.{
  serves, discover_endpoints, advance_revision, event_of, apply_instance, apply_message,
  run_watch_session,
}
use sdkwork_rpc_framework.Client.Watch.Cache.{AllServable, IsServing}
use sdkwork_rpc_framework.Client.Watch.History.{
  Event, history, IsServing-history, discover_endpoints-AllServable,
}

fresh_endpoints-eq-some :
    (ttl : Duration) (now : ℕ) (o : Option CachedEndpoints) (es : List ResolvedEndpoint)
    → fresh_endpoints ttl now o ≡ some es
    → (cached : CachedEndpoints) × (o ≡ some cached)
      × (cached.endpoints ≡ es)
      × (is_empty es ≡ false)
unfolding fresh_endpoints
fresh_endpoints-eq-some ttl now none es e = cc
fresh_endpoints-eq-some ttl now (some cached) es e = (cached, refl, ground arith, ground arith)

fresh_endpoints-within :
    (ttl : Duration) (now : ℕ) (cached : CachedEndpoints)
    → is_empty cached.endpoints ≡ false
    → now - cached.updated_at ≤ ttl
    → fresh_endpoints ttl now (some cached) ≡ some cached.endpoints
unfolding fresh_endpoints
fresh_endpoints-within ttl now cached h k = ground arith

module _ {P : List ResolvedEndpoint → Type 0} where
  answer-eq-ok :
      (later : ℕ) (name : String) (o : Option (List ResolvedEndpoint))
      (inner : Result (List ResolvedEndpoint)) (r : WatchingDiscoveryNameResolver)
      (es : List ResolvedEndpoint)
      → ((xs : List ResolvedEndpoint) → o ≡ some xs → P xs)
      → ((xs : List ResolvedEndpoint) → inner ≡ ok xs → P xs)
      → (answer later name o inner r).1 ≡ ok es
      → P es
  unfolding answer store_result
  answer-eq-ok later name (some xs) inner r es h k e = subst P (ok_injective e) (h xs refl)
  answer-eq-ok later name none (ok xs) r es h k e = subst P (ok_injective e) (k xs refl)
  answer-eq-ok later name none (err error) r es h k e = absurd (cc)

pub lookup-insert_self :
    (name : String) (entry : CachedEndpoints) (cache : Map CachedEndpoints)
    → lookup name (insert name entry cache) ≡ some entry
lookup-insert_self name entry cache =
    ground (arith, lookup-insert name name entry cache, eq_iff name name)

lookup-store_or_remove :
    (name : String) (entry found : CachedEndpoints) (cache : Map CachedEndpoints)
    → lookup name (store_or_remove name entry cache) ≡ some found
    → found ≡ entry
lookup-store_or_remove name entry found cache e =
    ground
      (arith, lookup-insert_self name entry cache, lookup-remove name name cache, eq_iff name name)

any-retain_others :
    (uri : String) (es : List ResolvedEndpoint)
    → any (λ e. str_eq e.endpoint uri) (retain_others uri es) ≡ false
unfolding retain_others
any-retain_others uri [] = refl
any-retain_others uri (e ∷ es) = ground (arith, any-retain_others uri es)

-- A young entry that is not empty answers.
pub resolve-cached :
    (next last : ℕ) (name : String) (inner : Result (List ResolvedEndpoint))
    (r : WatchingDiscoveryNameResolver) (cached : CachedEndpoints)
    → lookup name r.cache ≡ some cached
    → is_empty cached.endpoints ≡ false
    → next - cached.updated_at ≤ r.watch_config.cache_ttl
    → resolve next last name inner r ≡ (r, ok cached.endpoints)
unfolding resolve cached_endpoints answer
resolve-cached next last name inner r cached found filled young =
    let fresh = fresh_endpoints-within r.watch_config.cache_ttl next cached filled young in
    rw (found, fresh) refl

-- While an answer of the control plane is younger than the time to live, a second resolve of the
-- same name gives it again, whatever the control plane would say, and changes nothing.
resolve-resolve :
    (now later next last : ℕ) (name : String) (es : List ResolvedEndpoint)
    (inner : Result (List ResolvedEndpoint)) (r : WatchingDiscoveryNameResolver)
    → cached_endpoints now name r ≡ none
    → is_empty es ≡ false
    → next - later ≤ r.watch_config.cache_ttl
    → let r' = (resolve now later name (ok es) r).0 in resolve next last name inner r' ≡ (r', ok es)
unfolding resolve cached_endpoints answer store_result
resolve-resolve now later next last name es inner r miss filled young =
    let entry : CachedEndpoints = record { endpoints = es; updated_at = later } in
    let stored : WatchingDiscoveryNameResolver = record r { cache = insert name entry r.cache } in
    rw (miss) (
      resolve-cached next last name inner stored entry (lookup-insert_self name entry r.cache)
        filled young)

-- A reconnect never waits longer than the configured maximum, if the initial backoff does not pass
-- it, whatever the attempt and the random sample.
reconnect_backoff-le-max :
    (draw : ℕ → ℕ) (attempt : ℕ) (initial max_backoff : Duration)
    → IsDraw draw
    → initial ≤ max_backoff
    → reconnect_backoff draw attempt initial max_backoff ≤ max_backoff
unfolding reconnect_backoff
reconnect_backoff-le-max draw attempt initial max_backoff d h =
    let base = min (saturating_mul_duration initial (2 ^ min attempt 16)) max_backoff in
    ground (arith, d (min (as_millis base) u64_max))

module _ (text : TextUtils) (proto : DiscoveryProto) where
  open proto use {ServiceInstance, WatchMessage, WatchEventType}

  pub empty-IsServing : (config : WatchLoopConfig) → IsServing (with_watch_config config).cache
  unfolding with_watch_config lookup
  empty-IsServing config name cached e = absurd (cc)

  pub from_cache :
      (config : WatchLoopConfig) (events : List (Event text proto)) (now : ℕ) (name : String)
      (xs : List ResolvedEndpoint)
      → cached_endpoints now name (history text proto (with_watch_config config) events) ≡ some xs
      → AllServable xs × (is_empty xs ≡ false)
  unfolding cached_endpoints
  from_cache config events now name xs e =
      let r = history text proto (with_watch_config config) events in
      let (cached, found, same, filled) =
        fresh_endpoints-eq-some r.watch_config.cache_ttl now _ xs e in
      let serving =
        IsServing-history text proto (with_watch_config config) events (empty-IsServing config) in
      (subst AllServable same (serving name cached found), filled)

  pub from_control_plane :
      (name : String) (instances : List ServiceInstance) (xs : List ResolvedEndpoint)
      → discover_endpoints text proto name instances ≡ ok xs
      → AllServable xs × (is_empty xs ≡ false)
  unfolding discover_endpoints
  from_control_plane name instances xs e =
      (discover_endpoints-AllServable text proto name instances xs e, ground arith)

  -- Whatever messages and resolves came before, `resolve` never answers with an empty list, and
  -- every endpoint that it answers with is healthy and has a positive weight.
  pub resolve-AllServable :
      (config : WatchLoopConfig) (events : List (Event text proto)) (now later : ℕ) (name : String)
      (instances : List ServiceInstance) (es : List ResolvedEndpoint)
      → (resolve now later name
          (discover_endpoints text proto name instances)
          (history text proto (with_watch_config config) events)).1
        ≡ ok es
      → AllServable es × (is_empty es ≡ false)
  unfolding resolve
  resolve-AllServable config events now later name instances es e =
      answer-eq-ok {P = λ xs. AllServable xs × (is_empty xs ≡ false)} later name _ _ _ es
        (from_cache config events now name) (from_control_plane name instances) e

  -- After a message that deregisters an instance, or that says it no longer serves, no cached
  -- endpoint of the service has that instance's address.
  pub apply_message-any :
      (now : ℕ) (name : String) (message : WatchMessage) (i : ServiceInstance)
      (r : WatchingDiscoveryNameResolver) (cached : CachedEndpoints)
      → let kind = event_of text proto (proto.event_type message) in
        proto.is_heartbeat kind ≡ false
        → proto.instance_of message ≡ some i
        → (proto.is_deregistered kind || not (serves text proto (proto.status i))) ≡ true
        → lookup name (apply_message text proto now name message r).cache ≡ some cached
        → any (λ e. str_eq e.endpoint (proto.endpoint i)) cached.endpoints ≡ false
  unfolding apply_message apply_instance
  apply_message-any now name message i r cached beat has gone found =
      let stored = rw (beat, has, gone) at found in
      let same = lookup-store_or_remove name _ cached r.cache stored in
      rw same (any-retain_others (proto.endpoint i) _)

  advance_revision-le : (o : Option ℕ) (last : ℕ) → last ≤ advance_revision text proto o last
  advance_revision-le none last = omega arith
  advance_revision-le (some n) last = ground arith

  advance_revision-ge :
      (o : Option ℕ) (last n : ℕ) → o ≡ some n → n ≤ advance_revision text proto o last
  advance_revision-ge none last n e = cc
  advance_revision-ge (some m) last n e = ground arith

  -- The revision from which a session reconnects is at least the one that it started from, and at
  -- least that of every message that it delivered.
  run_watch_session-last_revision :
      (name : String) (messages : List (ℕ × WatchMessage)) (r : WatchingDiscoveryNameResolver)
      → let r' = run_watch_session text proto name messages r in
        (r.last_revision ≤ r'.last_revision)
        × All (λ m. (n : ℕ) → proto.revision m.1 ≡ some n → n ≤ r'.last_revision) messages
  unfolding run_watch_session apply_message
  run_watch_session-last_revision name [] r = (omega arith, tt)
  run_watch_session-last_revision name ((now, m) ∷ rest) r =
      let (rise, covered) =
        run_watch_session-last_revision name rest (apply_message text proto now name m r) in
      (
        omega (arith, rise, advance_revision-le (proto.revision m) r.last_revision),
        (
          λ n e. omega (arith, rise, advance_revision-ge (proto.revision m) r.last_revision n e),
          covered,
        ),
      )
