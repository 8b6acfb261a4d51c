-- ===== src/Client/Discovery.antt =====
-- crates/sdkwork-rpc-client/src/discovery_resolver.rs: the resolver that asks the registry. The shared
-- channel is a cell that is filled once; it comes back beside the result.
use Prim.Native.String.{String}
use sdkwork_rpc_framework.Prelude.{Bool, Option, none, some, List, ◌⊎◌, inl, inr, if◌then◌else◌}
use sdkwork_rpc_framework.External.{Tonic, TextUtils, DiscoveryProto, MetadataNames}
use sdkwork_rpc_framework.Core.Error.{
  Result, ok, err, validation, transport, discovery, ◌>>=◌, ◌>>◌,
}
use sdkwork_rpc_framework.Discovery.Endpoint.{normalize_http_endpoint, require_non_blank}
use sdkwork_rpc_framework.Discovery.Headers.{
  Draws, unsigned_registry_read_metadata, apply_metadata_template,
}
use sdkwork_rpc_framework.Discovery.Registry.{Registry}
use sdkwork_rpc_framework.Client.Resolver.{ResolvedEndpoint}
use sdkwork_rpc_framework.Client.Watch.Messages.{discover_endpoints}

pub record DiscoveryNameResolverConfig : Type 0 where
  pub discovery_endpoint : String
  pub namespace : String
  pub environment : String
  pub subject_id : String
  pub healthy_only : Bool
  pub protocol : String

-- The fields that the resolver sets; the others are empty, zero and absent.
pub record DiscoverInstancesRequest : Type 0 where
  pub namespace : String
  pub environment : String
  pub service_name : String
  pub healthy_only : Bool
  pub protocol : String

abbrev pub request_of : DiscoveryNameResolverConfig → String → DiscoverInstancesRequest
request_of config service_name = record {
  namespace = config.namespace;
  environment = config.environment;
  service_name = service_name;
  healthy_only = config.healthy_only;
  protocol = config.protocol;
}

abbrev invalid : String ⊎ Unit {0} → Result (Unit {0})
invalid (inl message) = err (validation message)
invalid (inr done) = ok tt

unfoldable pub validate : TextUtils → DiscoveryNameResolverConfig → Result (Unit {0})
validate utils config =
    invalid (require_non_blank utils config.discovery_endpoint "discovery_endpoint")
    >> (invalid (require_non_blank utils config.namespace "namespace")
        >> (invalid (require_non_blank utils config.environment "environment")
            >> (invalid (require_non_blank utils config.subject_id "subject_id")
                >> invalid (require_non_blank utils config.protocol "protocol"))))

-- `registry` has the types of the registry's client; `discover_instances` is its call, with the error's
-- text in `inl`. What one attempt to connect answers is the argument `connect` of each call.
module _ (tonic : Tonic) (registry : Registry tonic) (utils : TextUtils) (proto : DiscoveryProto)
    (discover_instances : registry.Channel
      → DiscoverInstancesRequest
      → tonic.MetadataMap
      → String ⊎ List (proto.ServiceInstance)) where
  open registry use {Endpoint, Channel, from_shared}
  open proto use {ServiceInstance}

  pub record DiscoveryNameResolver : Type 0 where
    pub config : DiscoveryNameResolverConfig
    pub channel : Option Channel

  unfoldable pub new : DiscoveryNameResolverConfig → Result DiscoveryNameResolver
  new config = validate utils config >> ok (record { config = config; channel = none })

  abbrev wired : {A : Type 0} → String ⊎ A → Result A
  wired (inl error) = err (transport error)
  wired (inr a) = ok a

  abbrev pub fill : DiscoveryNameResolver → Result Channel → DiscoveryNameResolver × Result Channel
  fill resolver (err error) = (resolver, err error)
  fill resolver (ok channel) = (record resolver { channel = some channel }, ok channel)

  -- `Endpoint::connect`, as it answers once.
  abbrev pub Connecting : Type 0
  Connecting = Endpoint → String ⊎ Channel

  abbrev pub dial : Connecting → DiscoveryNameResolver → Result Channel
  dial connect resolver = do
    endpoint ←
        wired (from_shared (normalize_http_endpoint utils resolver.config.discovery_endpoint))
    wired (connect endpoint)

  abbrev pub channel_or_dial :
      Connecting → DiscoveryNameResolver → Option Channel → DiscoveryNameResolver × Result Channel
  channel_or_dial connect resolver none = fill resolver (dial connect resolver)
  channel_or_dial connect resolver (some channel) = (resolver, ok channel)

  unfoldable pub get_or_init_channel :
      Connecting → DiscoveryNameResolver → DiscoveryNameResolver × Result Channel
  get_or_init_channel connect resolver = channel_or_dial connect resolver resolver.channel

  abbrev discovered : String ⊎ List ServiceInstance → Result (List ServiceInstance)
  discovered (inl error) = err (discovery error)
  discovered (inr instances) = ok instances

  abbrev pub ask :
      MetadataNames
      → Draws
      → String
      → DiscoveryNameResolver × Result Channel
      → DiscoveryNameResolver × Result (List ResolvedEndpoint)
  ask names draws service_name (resolver, err error) = (resolver, err error)
  ask names draws service_name (resolver, ok channel) = (
    resolver,
    discovered (
          discover_instances channel (request_of resolver.config service_name) (
            apply_metadata_template tonic tonic.empty_metadata
              (unsigned_registry_read_metadata names resolver.config.subject_id draws)))
        >>= discover_endpoints utils proto service_name,
  )

  unfoldable pub resolve :
      MetadataNames
      → Connecting
      → Draws
      → String
      → DiscoveryNameResolver
      → DiscoveryNameResolver × Result (List ResolvedEndpoint)
  unfolding get_or_init_channel
  resolve names connect draws service_name resolver =
      if utils.is_blank service_name
      then (resolver, err (validation "service_name is required"))
      else ask names draws service_name (get_or_init_channel connect resolver)
