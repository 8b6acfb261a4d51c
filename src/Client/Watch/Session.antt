-- ===== src/Client/Watch/Session.antt =====
-- crates/sdkwork-rpc-client/src/watching_discovery_resolver.rs with the resolver that it wraps: the watch
-- session, the reconnect loop and `resolve`. What the control plane answers, and the random
-- numbers of a round, are arguments; what is sent and slept comes back beside the state.
pub mod Revisions
pub mod Channels
pub mod Cursor
pub mod Connect
use Prim.Native.String.{String}
use sdkwork_rpc_framework.Prelude.{ℕ, Option, none, some, List, [], ◌∷◌, ◌++◌, ◌⊎◌, inl, inr}
use sdkwork_rpc_framework.Prelude.Rust.{Duration}
use sdkwork_rpc_framework.External.{Tonic, TextUtils, DiscoveryProto, MetadataNames}
use sdkwork_rpc_framework.Core.Error.{Result, ok, err, transport, ◌>>=◌}
use sdkwork_rpc_framework.Discovery.Headers.{
  Draws, unsigned_registry_read_metadata, apply_metadata_template,
}
use sdkwork_rpc_framework.Discovery.Registry.{Registry}
use sdkwork_rpc_framework.Client.Resolver.{ResolvedEndpoint}
use sdkwork_rpc_framework.Client.Discovery.{
  DiscoveryNameResolverConfig, DiscoverInstancesRequest, DiscoveryNameResolver, Connecting, new,
  get_or_init_channel, resolve,
}
use sdkwork_rpc_framework.Client.Watch.{
  WatchLoopConfig, WatchingDiscoveryNameResolver, with_watch_config, cached_endpoints, store_result,
  reconnect_round, default_watch_config,
}
use sdkwork_rpc_framework.Client.Watch.Messages.{run_watch_session}

pub record WatchServiceRequest : Type 0 where
  pub namespace : String
  pub environment : String
  pub service_name : String
  pub from_revision : ℕ

abbrev pub watch_request : DiscoveryNameResolverConfig → String → ℕ → WatchServiceRequest
watch_request config service_name from_revision = record {
  namespace = config.namespace;
  environment = config.environment;
  service_name = service_name;
  from_revision = from_revision;
}

-- What a stream delivers: its messages, each with the clock that its round reads, and the error
-- that ends it, if it does not end cleanly.
pub record Delivery (WatchMessage : Type 0) : Type 0 where
  pub messages : List (ℕ × WatchMessage)
  pub failure : Option String

abbrev pub ended : Option String → Result (Unit {0})
ended none = ok tt
ended (some error) = err (transport error)

module _ (tonic : Tonic) (registry : Registry tonic) (utils : TextUtils) (proto : DiscoveryProto)
    (discover_instances : registry.Channel
      → DiscoverInstancesRequest
      → tonic.MetadataMap
      → String ⊎ List (proto.ServiceInstance))
    (names : MetadataNames) where
  open registry use {Channel}
  open proto use {WatchMessage}

  abbrev pub Dialling : Type 0
  Dialling = Connecting tonic registry utils proto discover_instances

  abbrev pub Discovering : Type 0
  Discovering = DiscoveryNameResolver tonic registry utils proto discover_instances

  -- The wrapped resolver, and the fields beside it.
  pub record Watching : Type 0 where
    pub inner : Discovering
    pub watched : WatchingDiscoveryNameResolver

  pub record Exchange : Type 0 where
    pub channel : Channel
    pub request : WatchServiceRequest
    pub metadata : tonic.MetadataMap
    pub answer : String ⊎ Delivery WatchMessage

  -- What a round of the reconnect loop finds: what an attempt to connect would answer in that round,
  -- the header draws, the jitter, and the control plane.
  pub record Round : Type 0 where
    pub connect : Dialling
    pub draws : Draws
    pub jitter : ℕ → ℕ
    pub watch_service :
        Channel → WatchServiceRequest → tonic.MetadataMap → String ⊎ Delivery WatchMessage

  abbrev wrapped : WatchLoopConfig → Discovering → Watching
  wrapped watch_config inner = record { inner = inner; watched = with_watch_config watch_config }

  unfoldable pub with_config : DiscoveryNameResolverConfig → WatchLoopConfig → Result Watching
  with_config config watch_config = do
    inner ← new tonic registry utils proto discover_instances config
    ok (wrapped watch_config inner)

  -- `WatchingDiscoveryNameResolver::new`.
  unfoldable pub new_watching : DiscoveryNameResolverConfig → Result Watching
  unfolding with_config
  new_watching config = with_config config default_watch_config

  -- The request of a session, which asks from the last revision.
  abbrev pub asking :
      Round → String → WatchingDiscoveryNameResolver → Discovering → Channel → Exchange
  asking round service_name watched inner channel =
      let request = watch_request inner.config service_name watched.last_revision in
      let metadata =
        apply_metadata_template tonic tonic.empty_metadata
          (unsigned_registry_read_metadata names inner.config.subject_id round.draws) in
      record {
        channel = channel;
        request = request;
        metadata = metadata;
        answer = round.watch_service channel request metadata;
      }

  abbrev pub deliver :
      String
      → String ⊎ Delivery WatchMessage
      → WatchingDiscoveryNameResolver
      → WatchingDiscoveryNameResolver × Result (Unit {0})
  deliver service_name (inl error) watched = (watched, err (transport error))
  deliver service_name (inr delivery) watched =
      (run_watch_session utils proto service_name delivery.messages watched, ended delivery.failure)

  abbrev pub over_channel :
      Round
      → String
      → WatchingDiscoveryNameResolver
      → Discovering × Result Channel
      → Watching × List Exchange × Result (Unit {0})
  over_channel round service_name watched (inner, err error) =
      (record { inner = inner; watched = watched }, [], err error)
  over_channel round service_name watched (inner, ok channel) =
      let exchange = asking round service_name watched inner channel in
      let (moved, done) = deliver service_name exchange.answer watched in
      (record { inner = inner; watched = moved }, exchange ∷ [], done)

  -- `run_watch_session`, with the request that it sent.
  unfoldable pub watch_session :
      Round → String → Watching → Watching × List Exchange × Result (Unit {0})
  watch_session round service_name r =
      over_channel round service_name r.watched
        (get_or_init_channel tonic registry utils proto discover_instances round.connect r.inner)

  -- `run_reconnect_loop` from an attempt number, over the rounds that it makes: the requests that it
  -- sent, and how long it slept after each session, no time where one ended cleanly.
  unfoldable pub run_reconnect_loop :
      String → ℕ → List Round → Watching → Watching × List Exchange × List Duration
  unfolding watch_session reconnect_round
  run_reconnect_loop service_name attempt [] r = (r, [], [])
  run_reconnect_loop service_name attempt (round ∷ rounds) r =
      let (moved, sent, done) = watch_session round service_name r in
      let (next, backoff) = reconnect_round round.jitter moved.watched.watch_config attempt done in
      let (last, more, sleeps) = run_reconnect_loop service_name next rounds moved in
      (last, sent ++ more, backoff ∷ sleeps)

  abbrev with_inner :
      ℕ
      → String
      → WatchingDiscoveryNameResolver
      → Discovering × Result (List ResolvedEndpoint)
      → Watching × Result (List ResolvedEndpoint)
  with_inner later service_name watched (inner, answered) =
      let (moved, given) = store_result later service_name answered watched in
      (record { inner = inner; watched = moved }, given)

  abbrev pub cached_or_inner :
      Dialling
      → Draws
      → ℕ
      → String
      → Watching
      → Option (List ResolvedEndpoint)
      → Watching × Result (List ResolvedEndpoint)
  cached_or_inner connect draws later service_name r (some endpoints) = (r, ok endpoints)
  cached_or_inner connect draws later service_name r none =
      with_inner later service_name r.watched (
        resolve tonic registry utils proto discover_instances names connect draws service_name
          r.inner)

  -- `resolve` with the wrapped resolver's call.
  unfoldable pub resolve_watching :
      Dialling → Draws → ℕ → ℕ → String → Watching → Watching × Result (List ResolvedEndpoint)
  unfolding store_result cached_endpoints
  resolve_watching connect draws now later service_name r =
      cached_or_inner connect draws later service_name r
        (cached_endpoints now service_name r.watched)
