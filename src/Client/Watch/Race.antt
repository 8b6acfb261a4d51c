-- ===== src/Client/Watch/Race.antt =====
-- A deregistration that overtakes a `resolve` of
-- crates/sdkwork-rpc-client/src/watching_discovery_resolver.rs, which asks the control plane without the lock.
use text.Mathlib.Text.{◌==◌ as str_eq}
use sdkwork_rpc_framework.Prelude.{
  ℕ, String, Bool, ◌-◌, ◌≤◌, ◌≡◌, refl, true, false, some, List, [], ◌∷◌, is_empty, any, All,
}
use sdkwork_rpc_framework.Prelude.Map.{lookup}
use sdkwork_rpc_framework.External.{TextUtils, DiscoveryProto}
use sdkwork_rpc_framework.Core.Error.{Result, ok}
use sdkwork_rpc_framework.Client.Resolver.{ResolvedEndpoint}
use sdkwork_rpc_framework.Client.Watch.{
  CachedEndpoints, WatchingDiscoveryNameResolver, store_result, resolve,
}
use sdkwork_rpc_framework.Client.Watch.Messages.{event_of, apply_message, run_watch_session}
use sdkwork_rpc_framework.Client.Watch.Answers.{
  lookup-insert_self, resolve-cached, apply_message-any,
}

any-filled :
    (p : ResolvedEndpoint → Bool) (es : List ResolvedEndpoint)
    → any p es ≡ true
    → is_empty es ≡ false
any-filled p [] e = cc
any-filled p (x ∷ xs) e = refl

module _ (text : TextUtils) (proto : DiscoveryProto) where
  open proto use {ServiceInstance, WatchMessage}

  abbrev IsBeat : ℕ × WatchMessage → Type 0
  IsBeat (now, message) = proto.is_heartbeat (event_of text proto (proto.event_type message)) ≡ true

  -- When the last of some messages came, or this time.
  abbrev pub last_time : ℕ → List (ℕ × WatchMessage) → ℕ
  last_time first [] = first
  last_time first ((now, message) ∷ rest) = last_time now rest

  run_watch_session-beats :
      (name : String) (es : List ResolvedEndpoint) (t : ℕ) (beats : List (ℕ × WatchMessage))
      (r : WatchingDiscoveryNameResolver)
      → All IsBeat beats
      → lookup name r.cache ≡ some (record { endpoints = es; updated_at = t })
      → let r' = run_watch_session text proto name beats r in
        (lookup name r'.cache ≡ some (record { endpoints = es; updated_at = last_time t beats }))
        × (r'.watch_config ≡ r.watch_config)
  unfolding run_watch_session apply_message
  run_watch_session-beats name es t [] r all found = (found, refl)
  run_watch_session-beats name es t ((now, m) ∷ rest) r (beat, more) found =
      run_watch_session-beats name es now rest (apply_message text proto now name m r) more
        (rw (beat, found) (lookup-insert_self name _ r.cache))

  -- After a deregistration no cached endpoint of the service has the instance's address; but if a
  -- resolve then stores an answer with that address, for which it asked before, a resolve answers
  -- with that answer again and changes nothing, at any time no later than the time to live
  -- after the last of the heartbeats that follow.
  pub resolve-deregistered :
      (now later next last : ℕ) (name : String) (message : WatchMessage) (i : ServiceInstance)
      (es : List ResolvedEndpoint) (beats : List (ℕ × WatchMessage))
      (inner : Result (List ResolvedEndpoint)) (r : WatchingDiscoveryNameResolver)
      → let kind = event_of text proto (proto.event_type message) in
        let gone = apply_message text proto now name message r in
        let r' = run_watch_session text proto name beats (store_result later name (ok es) gone).0 in
        proto.is_heartbeat kind ≡ false
        → proto.instance_of message ≡ some i
        → proto.is_deregistered kind ≡ true
        → any (λ e. str_eq e.endpoint (proto.endpoint i)) es ≡ true
        → All IsBeat beats
        → next - last_time later beats ≤ r.watch_config.cache_ttl
        → ((cached : CachedEndpoints)
            → lookup name gone.cache ≡ some cached
            → any (λ e. str_eq e.endpoint (proto.endpoint i)) cached.endpoints ≡ false)
          × (resolve next last name inner r' ≡ (r', ok es))
  unfolding apply_message store_result
  resolve-deregistered now later next last name message i es beats inner r beat has dereg old all
        young =
      let gone = apply_message text proto now name message r in
      let stored = (store_result later name (ok es) gone).0 in
      let (kept, config) =
        run_watch_session-beats name es later beats stored all
          (lookup-insert_self name _ gone.cache) in
      (
        λ cached found.
            apply_message-any text proto now name message i r cached beat has (rw dereg refl) found,
        resolve-cached next last name inner _ _ kept (any-filled _ es old) (rw config young),
      )
