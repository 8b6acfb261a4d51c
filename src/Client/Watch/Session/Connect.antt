-- ===== src/Client/Watch/Session/Connect.antt =====
-- Which endpoints the client of crates/sdkwork-rpc-client/src/transport.rs connects to when its resolver is
-- that of src/watching_discovery_resolver.rs.
use Prim.Native.String.{String}
use sdkwork_rpc_framework.Prelude.{
  ℕ, ◌≡◌, refl, sym, ◌∙◌, Bool-cases, false, Option, none, some, List, [], ◌∷◌, ◌⊎◌, inl, inr,
  is_empty, Among, subst,
}
use sdkwork_rpc_framework.External.{
  Tonic, TextUtils, DiscoveryProto, MetadataNames, Files, Transport,
}
use sdkwork_rpc_framework.Core.Error.{Result, ok, err, of_bind}
use sdkwork_rpc_framework.Discovery.Headers.{Draws}
use sdkwork_rpc_framework.Discovery.Registry.{Registry}
use sdkwork_rpc_framework.Client.Resolver.{ResolvedEndpoint, NameResolver}
use sdkwork_rpc_framework.Client.LoadBalance.{LoadBalanceAlgorithm, RoundRobinCursor}
use sdkwork_rpc_framework.Client.Transport.{
  GrpcChannelConfig, connect_grpc_channel_with_config, resolve_and_connect,
}
use sdkwork_rpc_framework.Client.Transport.Choice.{IsAnswer, resolve_and_connect-IsAnswer}
use sdkwork_rpc_framework.Client.Discovery.{DiscoverInstancesRequest, resolve, ask}
use sdkwork_rpc_framework.Client.Watch.{
  WatchLoopConfig, WatchingDiscoveryNameResolver, with_watch_config, store_result,
}
use sdkwork_rpc_framework.Client.Watch.Cache.{IsServable, AllServable}
use sdkwork_rpc_framework.Client.Watch.History.{Event, history}
use sdkwork_rpc_framework.Client.Watch.Answers.{from_cache, from_control_plane}
use sdkwork_rpc_framework.Client.Watch.Session.{
  Discovering, Dialling, Watching, cached_or_inner, resolve_watching,
}

module _ (tonic : Tonic) (registry : Registry tonic) (utils : TextUtils) (proto : DiscoveryProto)
    (discover_instances : registry.Channel
      → DiscoverInstancesRequest
      → tonic.MetadataMap
      → String ⊎ List (proto.ServiceInstance))
    (names : MetadataNames) where
  open registry use {Channel}

  abbrev Inner : Type 0
  Inner = Discovering tonic registry utils proto discover_instances names

  abbrev Connects : Type 0
  Connects = Dialling tonic registry utils proto discover_instances names

  -- What a resolver may answer with.
  abbrev Usable : List ResolvedEndpoint → Type 0
  Usable es = AllServable es × (is_empty es ≡ false)

  abbrev IsUsable : Result (List ResolvedEndpoint) → Type 0
  IsUsable answer = (es : List ResolvedEndpoint) → answer ≡ ok es → Usable es

  ask-IsUsable :
      (draws : Draws) (name : String) (inner : Inner) (channel : Result Channel)
      → IsUsable
          (ask tonic registry utils proto discover_instances names draws name (inner, channel)).1
  ask-IsUsable draws name inner (err error) es e = absurd (cc)
  ask-IsUsable draws name inner (ok channel) es e =
      of_bind _ _ e
        (λ instances asked mapped. from_control_plane utils proto name instances es mapped)

  resolve-IsUsable :
      (connect : Connects) (draws : Draws) (name : String) (inner : Inner)
      → IsUsable
          (resolve tonic registry utils proto discover_instances names connect draws name inner).1
  unfolding resolve
  resolve-IsUsable connect draws name inner es e = elim (Bool-cases (utils.is_blank name)) [
    | inl blank ↦ absurd (cc (rw blank at e))
    | inr named ↦ ask-IsUsable draws name _ _ es (rw named at e)
  ]

  store_result-answer :
      (later : ℕ) (name : String) (answered : Result (List ResolvedEndpoint))
      (w : WatchingDiscoveryNameResolver)
      → (store_result later name answered w).1 ≡ answered
  unfolding store_result
  store_result-answer later name (ok es) w = refl
  store_result-answer later name (err error) w = refl

  cached_or_inner-IsUsable :
      (connect : Connects) (draws : Draws) (later : ℕ) (name : String)
      (r : Watching tonic registry utils proto discover_instances names)
      (cached : Option (List ResolvedEndpoint))
      → ((es : List ResolvedEndpoint) → cached ≡ some es → Usable es)
      → IsUsable
          (cached_or_inner tonic registry utils proto discover_instances names connect draws later
            name r cached).1
  cached_or_inner-IsUsable connect draws later name r (some xs) h es e = h es (cc e)
  cached_or_inner-IsUsable connect draws later name r none h es e =
      resolve-IsUsable connect draws name r.inner es
        (sym (store_result-answer later name _ r.watched) ∙ e)

  Among-AllServable :
      (e : ResolvedEndpoint) (es : List ResolvedEndpoint)
      → Among e es
      → AllServable es
      → IsServable e
  Among-AllServable e [] m all = elim m [ ]
  Among-AllServable e (x ∷ xs) (inl same) (here, rest) = subst IsServable (sym same) here
  Among-AllServable e (x ∷ xs) (inr later) (here, rest) = Among-AllServable e xs later rest

  -- The wrapped resolver with the cache that a history leaves.
  abbrev pub after :
      WatchLoopConfig
      → List (Event utils proto)
      → Inner
      → Watching tonic registry utils proto discover_instances names
  after watch_config events inner = record {
    inner = inner;
    watched = history utils proto (with_watch_config watch_config) events;
  }

  abbrev pub as_resolver :
      Connects
      → Draws
      → ℕ
      → ℕ
      → Watching tonic registry utils proto discover_instances names
      → NameResolver
  as_resolver connect draws now later r name =
      (resolve_watching tonic registry utils proto discover_instances names connect draws now later
        name r).1

  module _ (files : Files) (wire : Transport) where
    -- What connecting may come to: the resolver's error, or an attempt on an endpoint that serves.
    abbrev pub ConnectsToServable :
        GrpcChannelConfig files → Result (List ResolvedEndpoint) → Result (wire.Channel) → Type 0
    ConnectsToServable config (err error) answer = answer ≡ err error
    ConnectsToServable config (ok endpoints) answer =
        (e : ResolvedEndpoint) × Among e endpoints
        × IsServable e
        × (answer ≡ connect_grpc_channel_with_config files wire utils e.endpoint config)

    IsAnswer-servable :
        (config : GrpcChannelConfig files) (resolved : Result (List ResolvedEndpoint))
        (answer : Result (wire.Channel))
        → IsUsable resolved
        → IsAnswer files wire utils config resolved answer
        → ConnectsToServable config resolved answer
    IsAnswer-servable config (err error) answer usable given = given
    IsAnswer-servable config (ok []) answer usable given = absurd (cc ((usable [] refl).1))
    IsAnswer-servable config (ok (x ∷ xs)) answer usable (e, choice, attempt) =
        let (serves, filled) = usable (x ∷ xs) refl in
        (e, choice.among, Among-AllServable e (x ∷ xs) choice.among serves, attempt)

    -- Whatever the watch stream, the control plane and other calls did before, in any order,
    -- connecting through the watching resolver fails with that resolver's own error, or tries an
    -- endpoint that the resolver answered with, and that is healthy and has a positive weight.
    pub resolve_and_connect-servable :
        (watch_config : WatchLoopConfig) (events : List (Event utils proto)) (inner : Inner)
        (connect : Connects) (draws : Draws) (now later : ℕ) (algorithm : LoadBalanceAlgorithm)
        (cursor : RoundRobinCursor) (config : GrpcChannelConfig files) (name : String)
        → let resolver = as_resolver connect draws now later (after watch_config events inner) in
          ConnectsToServable config
            (resolver name)
            (resolve_and_connect files wire utils resolver name algorithm cursor config).1
    unfolding resolve_watching
    resolve_and_connect-servable watch_config events inner connect draws now later algorithm cursor
          config name =
        let resolver = as_resolver connect draws now later (after watch_config events inner) in
        IsAnswer-servable config (resolver name) _
          (cached_or_inner-IsUsable connect draws later name _ _
            (from_cache utils proto watch_config events now name))
          (resolve_and_connect-IsAnswer files wire utils resolver name algorithm cursor config)
