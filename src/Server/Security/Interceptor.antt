-- ===== src/Server/Security/Interceptor.antt =====
-- crates/sdkwork-rpc-server/src/security.rs: the policy's constructor, the interceptor that runs it before
-- a handler, and the build without the `tls` feature.
use sdkwork_rpc_framework.Prelude.{Option}
use sdkwork_rpc_framework.External.{Tonic, Codec, X509}
use sdkwork_rpc_framework.Core.Time.{SystemTime}
use sdkwork_rpc_framework.Core.ServiceIdentity.{RpcServiceIdentityPolicy}
use sdkwork_rpc_framework.Core.CallerContext.{Json}
use sdkwork_rpc_framework.Core.CallerContext.Verifier.{RpcCallerContextVerifier}
use sdkwork_rpc_framework.Prelude.Checked.{Checked, refused}
use sdkwork_rpc_framework.Server.Security.{RpcInternalServiceSecurity, Request, verify_and_inject}

abbrev pub new :
    RpcServiceIdentityPolicy → Option RpcCallerContextVerifier → RpcInternalServiceSecurity
new service_identity_policy caller_context_verifier = record {
  service_identity_policy = service_identity_policy;
  caller_context_verifier = caller_context_verifier;
}

pub record RpcInternalServiceInterceptor : Type 0 where
  pub security : RpcInternalServiceSecurity

abbrev pub interceptor : RpcInternalServiceSecurity → RpcInternalServiceInterceptor
interceptor security = record { security = security }

module _ (tonic : Tonic) where
  -- `Interceptor::call`: the handler sees the request only if it passed.
  unfoldable pub call :
      Codec
      → Json
      → X509
      → SystemTime
      → RpcInternalServiceInterceptor
      → Request tonic
      → Checked tonic.Status (Request tonic)
  call codec json x509 now interceptor request =
      verify_and_inject tonic codec json x509 interceptor.security now request

  -- `verify_and_inject` of a build without the feature.
  unfoldable pub verify_and_inject_without_tls :
      RpcInternalServiceSecurity → Request tonic → Checked tonic.Status (Request tonic)
  verify_and_inject_without_tls security request = refused (
      tonic.status tonic.failed_precondition
        "internal RPC mTLS identity verification requires sdkwork-rpc-server/tls")
