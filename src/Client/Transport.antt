-- ===== src/Client/Transport.antt =====
-- crates/sdkwork-rpc-client/src/transport.rs: from a service's name to a channel. What tonic's
-- `connect` answers is an argument of the model.
pub mod Choice
use Prim.Native.String.{String, ◌++◌}
use sdkwork_rpc_framework.Prelude.{
  ℕ, Bool, true, false, Option, none, some, List, ◌⊎◌, inl, inr, ◌||◌, if◌then◌else◌,
}
use sdkwork_rpc_framework.Prelude.Rust.{Duration, from_secs}
use sdkwork_rpc_framework.Prelude.Text.{strip_prefix, starts_with}
use sdkwork_rpc_framework.External.{Files, Transport, TextUtils}
use sdkwork_rpc_framework.Core.Error.{
  Result, ok, err, validation, configuration, transport, discovery, ◌>>=◌, ok_or,
}
use sdkwork_rpc_framework.Client.Resolver.{ResolvedEndpoint, NameResolver}
use sdkwork_rpc_framework.Client.LoadBalance.{LoadBalanceAlgorithm, RoundRobinCursor, pick_endpoint}
use sdkwork_rpc_framework.Client.Tls.{RpcTlsConfig, build_client_tls_config}

abbrev scheme_uri : Option String → Option String → String → String
scheme_uri (some rest) plain trimmed = "https://" ++ rest
scheme_uri none (some rest) trimmed = "http://" ++ rest
scheme_uri none none trimmed =
    if starts_with trimmed "http://" || starts_with trimmed "https://"
    then trimmed
    else "http://" ++ trimmed

-- `tonic_endpoint_uri`.
unfoldable pub tonic_endpoint_uri : TextUtils → String → Result String
tonic_endpoint_uri utils grpc_endpoint =
    let trimmed = utils.trim grpc_endpoint in
    if utils.is_blank trimmed
    then err (validation "grpc endpoint is required")
    else ok (scheme_uri (strip_prefix "grpcs://" trimmed) (strip_prefix "grpc://" trimmed) trimmed)

module _ (files : Files) where
  pub record GrpcChannelConfig : Type 0 where
    pub connect_timeout : Duration
    pub keepalive_interval : Duration
    pub keepalive_timeout : Duration
    pub keepalive_while_idle : Bool
    pub tls : Option (RpcTlsConfig files)

module _ (files : Files) (wire : Transport) (utils : TextUtils) where
  open wire use {
    Endpoint, Channel, from_shared, connect_timeout, http2_keep_alive_interval, keep_alive_timeout,
    keep_alive_while_idle, tls_config, connect,
  }

  abbrev pub default_channel_config : GrpcChannelConfig files
  default_channel_config = record {
    connect_timeout = from_secs 10;
    keepalive_interval = from_secs 30;
    keepalive_timeout = from_secs 10;
    keepalive_while_idle = true;
    tls = none;
  }

  abbrev parsed : String ⊎ Endpoint → Result Endpoint
  parsed (inl error) = err (transport error)
  parsed (inr endpoint) = ok endpoint

  abbrev tls_built : String ⊎ Endpoint → Result Endpoint
  tls_built (inl error) = err (configuration ("tls config error: " ++ error))
  tls_built (inr endpoint) = ok endpoint

  abbrev pub with_tls : Option (RpcTlsConfig files) → Endpoint → Result Endpoint
  with_tls none endpoint = ok endpoint
  with_tls (some config) endpoint = do
    client_tls ← build_client_tls_config files wire config
    tls_built (tls_config client_tls endpoint)

  abbrev pub with_timeouts : GrpcChannelConfig files → Endpoint → Endpoint
  with_timeouts config endpoint = keep_alive_while_idle config.keepalive_while_idle (
      keep_alive_timeout config.keepalive_timeout (
        http2_keep_alive_interval config.keepalive_interval
          (connect_timeout config.connect_timeout endpoint)))

  abbrev connected : String ⊎ Channel → Result Channel
  connected (inl error) = err (transport error)
  connected (inr channel) = ok channel

  unfoldable pub connect_grpc_channel_with_config :
      String → GrpcChannelConfig files → Result Channel
  connect_grpc_channel_with_config endpoint config = do
    uri ← tonic_endpoint_uri utils endpoint
    parsed ← parsed (from_shared uri)
    built ← with_tls config.tls (with_timeouts config parsed)
    connected (connect built)

  abbrev pub connect_grpc_channel : String → Result Channel
  connect_grpc_channel endpoint = connect_grpc_channel_with_config endpoint default_channel_config

  -- The picked endpoint, or the error that there is none.
  abbrev pub connect_picked :
      String → GrpcChannelConfig files → Option ResolvedEndpoint → Result Channel
  connect_picked service_name config none =
      err (discovery ("no endpoints resolved for service " ++ service_name))
  connect_picked service_name config (some picked) =
      connect_grpc_channel_with_config picked.endpoint config

  abbrev pub connect_resolved :
      String
      → LoadBalanceAlgorithm
      → RoundRobinCursor
      → GrpcChannelConfig files
      → Result (List ResolvedEndpoint)
      → RoundRobinCursor × Result Channel
  connect_resolved service_name algorithm cursor config (err error) = (cursor, err error)
  connect_resolved service_name algorithm cursor config (ok endpoints) =
      let (moved, picked) = pick_endpoint endpoints algorithm cursor in
      (moved, connect_picked service_name config picked)

  unfoldable pub resolve_and_connect :
      NameResolver
      → String
      → LoadBalanceAlgorithm
      → RoundRobinCursor
      → GrpcChannelConfig files
      → RoundRobinCursor × Result Channel
  resolve_and_connect resolver service_name algorithm cursor config =
      connect_resolved service_name algorithm cursor config (resolver service_name)
