-- ===== src/Client/Watch/Registers.antt =====
-- The watch cache of crates/sdkwork-rpc-client/src/watching_discovery_resolver.rs as registers, one for each
-- address of a service.
use text.Mathlib.Text.{◌==◌ as str_eq}
use text.Mathlib.TextEquality.{eq_iff}
use sdkwork_rpc_framework.Prelude.{
  ℕ, String, ◌≡◌, refl, ap, ◌∙◌, inl, inr, true, false, not, ◌||◌, Option, none, some, List, [],
  ◌∷◌, is_empty, max, if◌then◌else◌, arith, Bool-cases,
}
use sdkwork_rpc_framework.Prelude.Map.{Map, lookup, insert, lookup-insert, lookup-remove}
use sdkwork_rpc_framework.External.{TextUtils, DiscoveryProto}
use sdkwork_rpc_framework.Client.Resolver.{ResolvedEndpoint}
use sdkwork_rpc_framework.Client.Watch.{
  CachedEndpoints, WatchingDiscoveryNameResolver, upsert_endpoint, retain_others, entry_or_empty,
  store_or_remove, touch,
}
use sdkwork_rpc_framework.Client.Watch.Messages.{
  serves, event_of, map_discovered_instance, upserted, apply_instance, apply_to_cache,
  apply_message, run_watch_session,
}
use sdkwork_rpc_framework.Client.Watch.Others.{other-apply_message}

-- The endpoint with an address.
abbrev pub find : String → List ResolvedEndpoint → Option ResolvedEndpoint
find uri [] = none
find uri (e ∷ es) = if str_eq e.endpoint uri then some e else find uri es

find-upsert_endpoint :
    (uri : String) (es : List ResolvedEndpoint) (e : ResolvedEndpoint)
    → find uri (upsert_endpoint es e) ≡ (if str_eq e.endpoint uri then some e else find uri es)
unfolding upsert_endpoint
find-upsert_endpoint uri [] e = refl
find-upsert_endpoint uri (x ∷ xs) e = ground (
  arith,
  find-upsert_endpoint uri xs e,
  eq_iff x.endpoint e.endpoint,
  eq_iff x.endpoint uri,
  eq_iff e.endpoint uri,
)

find-retain_others :
    (uri gone : String) (es : List ResolvedEndpoint)
    → find uri (retain_others gone es) ≡ (if str_eq gone uri then none else find uri es)
unfolding retain_others
find-retain_others uri gone [] = ground arith
find-retain_others uri gone (x ∷ xs) = ground (
  arith,
  find-retain_others uri gone xs,
  eq_iff x.endpoint gone,
  eq_iff x.endpoint uri,
  eq_iff gone uri,
)

-- The endpoints of an entry, if there is one.
abbrev endpoints_of : Option CachedEndpoints → List ResolvedEndpoint
endpoints_of none = []
endpoints_of (some cached) = cached.endpoints

entry_or_empty-endpoints :
    (now : ℕ) (o : Option CachedEndpoints) → (entry_or_empty now o).endpoints ≡ endpoints_of o
entry_or_empty-endpoints now none = refl
entry_or_empty-endpoints now (some cached) = refl

endpoints_of-insert :
    (name : String) (entry : CachedEndpoints) (cache : Map CachedEndpoints)
    → endpoints_of (lookup name (insert name entry cache)) ≡ entry.endpoints
endpoints_of-insert name entry cache =
    ground (arith, lookup-insert name name entry cache, eq_iff name name)

empty-nil : (es : List ResolvedEndpoint) → is_empty es ≡ true → [] ≡ es
empty-nil [] e = refl
empty-nil (x ∷ xs) e = cc

endpoints_of-store_or_remove :
    (name : String) (entry : CachedEndpoints) (cache : Map CachedEndpoints)
    → endpoints_of (lookup name (store_or_remove name entry cache)) ≡ entry.endpoints
endpoints_of-store_or_remove name entry cache = ground (
  arith,
  endpoints_of-insert name entry cache,
  lookup-remove name name cache,
  eq_iff name name,
  empty-nil entry.endpoints,
)

module _ (text : TextUtils) (proto : DiscoveryProto) where
  open proto use {ServiceInstance, WatchMessage, WatchEventType}

  -- The register of an address.
  abbrev pub register : String → String → WatchingDiscoveryNameResolver → Option ResolvedEndpoint
  register uri name r = find uri (endpoints_of (lookup name r.cache))

  -- What an instance says of an address that is its own: gone, or how it serves there.
  abbrev said : WatchEventType → ServiceInstance → Option ResolvedEndpoint → Option ResolvedEndpoint
  said kind i before =
      if proto.is_deregistered kind || not (serves text proto (proto.status i))
      then none
      else if text.is_blank (proto.endpoint i)
      then before
      else some
          (record { endpoint = proto.endpoint i; weight = max (proto.weight i) 1; healthy = true })

  abbrev heard :
      String
      → WatchEventType
      → Option ServiceInstance
      → Option ResolvedEndpoint
      → Option ResolvedEndpoint
  heard uri kind none before = before
  heard uri kind (some i) before =
      if str_eq (proto.endpoint i) uri then said kind i before else before

  -- The register after a message, and after all of some messages.
  abbrev pub after_message :
      String → WatchMessage → Option ResolvedEndpoint → Option ResolvedEndpoint
  after_message uri message before =
      let kind = event_of text proto (proto.event_type message) in
      if proto.is_heartbeat kind then before else heard uri kind (proto.instance_of message) before

  abbrev pub after_messages :
      String → List (ℕ × WatchMessage) → Option ResolvedEndpoint → Option ResolvedEndpoint
  after_messages uri [] before = before
  after_messages uri ((now, message) ∷ rest) before =
      after_messages uri rest (after_message uri message before)

  register-touch :
      (name : String) (now : ℕ) (o : Option CachedEndpoints) (cache : Map CachedEndpoints)
      → lookup name cache ≡ o
      → endpoints_of (lookup name (touch now name o cache)) ≡ endpoints_of (lookup name cache)
  register-touch name now none cache e = refl
  register-touch name now (some cached) cache e = endpoints_of-insert name _ cache ∙ rw e refl

  register-upserted :
      (uri name : String) (now : ℕ) (entry : CachedEndpoints) (i : ServiceInstance)
      (cache : Map CachedEndpoints)
      → serves text proto (proto.status i) ≡ true
      → find uri (
          endpoints_of (
            lookup name
              (upserted text proto now name entry (map_discovered_instance text proto i) cache)))
        ≡ (if str_eq (proto.endpoint i) uri
            then (if text.is_blank (proto.endpoint i)
                then find uri entry.endpoints
                else some (record {
                  endpoint = proto.endpoint i;
                  weight = max (proto.weight i) 1;
                  healthy = true;
                }))
            else find uri entry.endpoints)
  unfolding map_discovered_instance
  register-upserted uri name now entry i cache up =
      elim (Bool-cases (text.is_blank (proto.endpoint i))) [
        | inl blank ↦ rw (blank, endpoints_of-insert name entry cache) (ground arith)
        | inr named ↦
            rw (named, endpoints_of-insert name _ cache, up)
              (find-upsert_endpoint uri entry.endpoints _)
      ]

  register-apply_instance :
      (uri name : String) (now : ℕ) (kind : WatchEventType) (i : ServiceInstance)
      (cache : Map CachedEndpoints)
      → find uri (endpoints_of (lookup name (apply_instance text proto now name kind i cache)))
        ≡ heard uri kind (some i) (find uri (endpoints_of (lookup name cache)))
  unfolding apply_instance
  register-apply_instance uri name now kind i cache =
      let entry = entry_or_empty now (lookup name cache) in
      let before = entry_or_empty-endpoints now (lookup name cache) in
      elim (Bool-cases (proto.is_deregistered kind || not (serves text proto (proto.status i)))) [
        | inl gone ↦
            rw
              (
                gone,
                endpoints_of-store_or_remove name
                    (record entry { endpoints = retain_others (proto.endpoint i) entry.endpoints })
                    cache,
              )
              (find-retain_others uri (proto.endpoint i) entry.endpoints ∙ rw before refl)
        | inr kept ↦
            rw kept (register-upserted uri name now entry i cache (ground arith) ∙ rw before refl)
      ]

  register-apply_to_cache :
      (uri name : String) (now : ℕ) (kind : WatchEventType) (o : Option ServiceInstance)
      (cache : Map CachedEndpoints)
      → find uri (endpoints_of (lookup name (apply_to_cache text proto now name kind o cache)))
        ≡ heard uri kind o (find uri (endpoints_of (lookup name cache)))
  register-apply_to_cache uri name now kind none cache = refl
  register-apply_to_cache uri name now kind (some i) cache =
      register-apply_instance uri name now kind i cache

  register-apply_message :
      (uri name : String) (now : ℕ) (message : WatchMessage) (r : WatchingDiscoveryNameResolver)
      → register uri name (apply_message text proto now name message r)
        ≡ after_message uri message (register uri name r)
  unfolding apply_message
  register-apply_message uri name now message r =
      let kind = event_of text proto (proto.event_type message) in
      elim (Bool-cases (proto.is_heartbeat kind)) [
        | inl beat ↦ rw beat (ap (find uri) (register-touch name now _ r.cache refl))
        | inr news ↦ rw news (register-apply_to_cache uri name now kind _ r.cache)
      ]

  -- A session leaves the entries of other services alone, and treats the addresses of its own service
  -- as registers that do not interact: what the cache has for an address is what it had
  -- before, changed by the messages about that address alone, of which each but a heartbeat
  -- removes it, if its instance deregistered or does not serve, and else sets it, unless it is blank.
  pub run_watch_session-register :
      (uri name : String) (messages : List (ℕ × WatchMessage)) (r : WatchingDiscoveryNameResolver)
      → let r' = run_watch_session text proto name messages r in
        (register uri name r' ≡ after_messages uri messages (register uri name r))
        × ((other : String)
            → str_eq other name ≡ false
            → lookup other r'.cache ≡ lookup other r.cache)
  unfolding run_watch_session
  run_watch_session-register uri name [] r = (refl, λ other apart. refl)
  run_watch_session-register uri name ((now, m) ∷ rest) r =
      let (here, there) =
        run_watch_session-register uri name rest (apply_message text proto now name m r) in
      (
        here ∙ ap (after_messages uri rest) (register-apply_message uri name now m r),
        λ other apart. there other apart ∙ other-apply_message text proto other name apart now m r,
      )
