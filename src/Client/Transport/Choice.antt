-- ===== src/Client/Transport/Choice.antt =====
-- Which endpoint crates/sdkwork-rpc-client/src/transport.rs connects to.
use Prim.Native.String.{String}
use sdkwork_rpc_framework.Prelude.{◌≡◌, refl, ap, List, [], ◌∷◌}
use sdkwork_rpc_framework.External.{Files, Transport, TextUtils}
use sdkwork_rpc_framework.Core.Error.{Result, ok, err, discovery}
use sdkwork_rpc_framework.Client.Resolver.{ResolvedEndpoint, NameResolver}
use sdkwork_rpc_framework.Client.LoadBalance.{LoadBalanceAlgorithm, RoundRobinCursor, pick_endpoint}
use sdkwork_rpc_framework.Client.LoadBalance.Choice.{IsChoice, pick_endpoint-IsChoice}
use sdkwork_rpc_framework.Client.Transport.{
  GrpcChannelConfig, connect_grpc_channel_with_config, connect_picked, connect_resolved,
  resolve_and_connect,
}

module _ (files : Files) (wire : Transport) (utils : TextUtils) where
  open wire use {Channel}

  -- How the answer comes from what the resolver answered.
  abbrev pub IsAnswer :
      GrpcChannelConfig files → Result (List ResolvedEndpoint) → Result Channel → Type 0
  IsAnswer config (err error) answer = answer ≡ err error
  IsAnswer config (ok []) answer = (message : String) × (answer ≡ err (discovery message))
  IsAnswer config (ok endpoints) answer =
      (e : ResolvedEndpoint) × IsChoice endpoints e
      × (answer ≡ connect_grpc_channel_with_config files wire utils e.endpoint config)

  connect_resolved-IsAnswer :
      (service_name : String) (algorithm : LoadBalanceAlgorithm) (cursor : RoundRobinCursor)
      (config : GrpcChannelConfig files) (resolved : Result (List ResolvedEndpoint))
      → IsAnswer config resolved
          (connect_resolved files wire utils service_name algorithm cursor config resolved).1
  unfolding pick_endpoint
  connect_resolved-IsAnswer service_name algorithm cursor config (err error) = refl
  connect_resolved-IsAnswer service_name algorithm cursor config (ok []) = (_, refl)
  connect_resolved-IsAnswer service_name algorithm cursor config (ok (x ∷ xs)) =
      let (e, q, choice) = pick_endpoint-IsChoice (x ∷ xs) algorithm cursor (λ e. cc) in
      (e, choice, ap (connect_picked files wire utils service_name config) q)

  -- Resolving and connecting fails with the resolver's own error, fails with a discovery error where
  -- the resolver found no endpoint, and else connects to an endpoint that it found, and to a
  -- healthy one where one of them is healthy.
  pub resolve_and_connect-IsAnswer :
      (resolver : NameResolver) (service_name : String) (algorithm : LoadBalanceAlgorithm)
      (cursor : RoundRobinCursor) (config : GrpcChannelConfig files)
      → IsAnswer config
          (resolver service_name)
          (resolve_and_connect files wire utils resolver service_name algorithm cursor config).1
  unfolding resolve_and_connect
  resolve_and_connect-IsAnswer resolver service_name algorithm cursor config =
      connect_resolved-IsAnswer service_name algorithm cursor config (resolver service_name)
