-- ===== src/Client/Invocation.antt =====
-- crates/sdkwork-rpc-client/src/lib.rs: the context of an invocation.
use sdkwork_rpc_framework.Prelude.{ℕ}
use sdkwork_rpc_framework.Core.Profile.{ResilienceProfile, rpc_default}
use sdkwork_rpc_framework.Core.ResolverProfile.{ResolverProfile, static}

pub record RpcInvocationContext : Type 0 where
  pub resolver_profile : ResolverProfile
  pub resilience_profile : ResilienceProfile
  pub default_deadline_ms : ℕ

abbrev pub default_invocation : RpcInvocationContext
default_invocation = record {
  resolver_profile = static;
  resilience_profile = rpc_default;
  default_deadline_ms = 30_000;
}
