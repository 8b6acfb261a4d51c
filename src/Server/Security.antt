-- ===== src/Server/Security.antt =====
-- crates/sdkwork-rpc-server/src/security.rs, built with the `tls` feature: the interceptor that puts
-- verified identities into a request. The clock reading is an argument.
pub mod Delegation
pub mod Admission
pub mod Interceptor
use text.Mathlib.Text.{◌==◌ as str_eq}
use Prim.Native.String.{◌++◌}
use sdkwork_rpc_framework.Prelude.{
  ℕ, String, Bool, true, false, Option, none, some, List, [], ◌∷◌, if◌then◌else◌, is_some,
}
use sdkwork_rpc_framework.External.{Tonic, Codec, X509}
use sdkwork_rpc_framework.Core.Error.{
  RpcFrameworkError, validation, configuration, transport, discovery, Result, ok, err,
}
use sdkwork_rpc_framework.Core.Time.{SystemTime}
use sdkwork_rpc_framework.Core.ServiceIdentity.{
  VerifiedRpcServiceIdentity, RpcServiceIdentityPolicy, verify_tls_peer_certificate_der,
}
use sdkwork_rpc_framework.Core.CallerContext.{
  SignedRpcCallerContext, VerifiedRpcCallerContext, Json, rpc_caller_context_metadata,
  rpc_caller_context_signature_metadata, rpc_service_identity_assertion_metadata,
}
use sdkwork_rpc_framework.Core.CallerContext.Verifier.{RpcCallerContextVerifier, verify}
use sdkwork_rpc_framework.Prelude.Checked.{Checked, refused, passed, ◌>>=◌}

pub record RpcInternalServiceSecurity : Type 0 where
  pub service_identity_policy : RpcServiceIdentityPolicy
  pub caller_context_verifier : Option RpcCallerContextVerifier

module _ (tonic : Tonic) where
  open tonic use {
    MetadataMap, MetadataValue, get, to_str, Status, status, unauthenticated, failed_precondition,
    invalid_argument, unavailable,
  }

  -- What the interceptor reads of a request, and its two extensions.
  pub record Request : Type 0 where
    pub metadata : MetadataMap
    pub peer_certs : Option (List (List ℕ))
    pub service_identity : Option VerifiedRpcServiceIdentity
    pub caller_context : Option VerifiedRpcCallerContext

  abbrev ascii : String → Option String → Checked Status (Option String)
  ascii key none =
      refused (status invalid_argument (("RPC metadata `" ++ key) ++ "` must be ASCII"))
  ascii key (some text) = passed (some text)

  abbrev transposed : String → Option MetadataValue → Checked Status (Option String)
  transposed key none = passed none
  transposed key (some value) = ascii key (to_str value)

  unfoldable pub optional_metadata : MetadataMap → String → Checked Status (Option String)
  optional_metadata metadata key = transposed key (get metadata key)

  abbrev identity_status : RpcFrameworkError → Status
  identity_status (validation message) =
      status unauthenticated "internal RPC identity verification failed"
  identity_status (configuration message) =
      status failed_precondition "internal RPC identity verifier is misconfigured"
  identity_status (transport message) =
      status unavailable "internal RPC identity verifier is unavailable"
  identity_status (discovery message) =
      status unavailable "internal RPC identity verifier is unavailable"

  -- `map_err(map_identity_error)`.
  abbrev pub map_identity_error : {A : Type 0} → Result A → Checked Status A
  map_identity_error (ok a) = passed a
  map_identity_error (err e) = refused (identity_status e)

  abbrev pub same_service : VerifiedRpcServiceIdentity → Option String → Checked Status (Unit {0})
  same_service identity none = passed tt
  same_service identity (some assertion) =
      if str_eq assertion identity.service_id
      then passed tt
      else refused (
          status unauthenticated "internal RPC service assertion does not match mTLS peer identity")

  unfoldable pub validate_optional_service_assertion :
      MetadataMap → VerifiedRpcServiceIdentity → Checked Status (Unit {0})
  unfolding optional_metadata
  validate_optional_service_assertion metadata identity = do
    assertion ← optional_metadata metadata rpc_service_identity_assertion_metadata
    same_service identity assertion

  abbrev pub or_refuse : {A : Type 0} → Option A → Status → Checked Status A
  or_refuse none s = refused s
  or_refuse (some a) s = passed a

  module _ (codec : Codec) (json : Json) where
    -- Both texts are there: the configured verifier decides.
    unfoldable pub verify_supplied :
        RpcInternalServiceSecurity
        → MetadataMap
        → VerifiedRpcServiceIdentity
        → SystemTime
        → String
        → String
        → Checked Status (Option VerifiedRpcCallerContext)
    verify_supplied security metadata identity now encoded_context signature = do
      verifier ← or_refuse security.caller_context_verifier (
          status failed_precondition
            "internal RPC caller context was supplied but no verifier is configured")
      key ← optional_metadata metadata "idempotency-key"
      context ← map_identity_error (
          verify codec json verifier
            (record { encoded_context = encoded_context; signature = signature }) identity key now)
      passed (some context)

    abbrev pub supplied :
        RpcInternalServiceSecurity
        → MetadataMap
        → VerifiedRpcServiceIdentity
        → SystemTime
        → Option String
        → Option String
        → Checked Status (Option VerifiedRpcCallerContext)
    supplied security metadata identity now (some encoded_context) (some signature) =
        verify_supplied security metadata identity now encoded_context signature
    supplied security metadata identity now none none = passed none
    supplied security metadata identity now none (some signature) = refused (
        status unauthenticated
          "internal RPC caller context and signature must be supplied together")
    supplied security metadata identity now (some encoded_context) none = refused (
        status unauthenticated
          "internal RPC caller context and signature must be supplied together")

    unfoldable pub verify_optional_caller_context :
        RpcInternalServiceSecurity
        → MetadataMap
        → VerifiedRpcServiceIdentity
        → SystemTime
        → Checked Status (Option VerifiedRpcCallerContext)
    verify_optional_caller_context security metadata identity now = do
      encoded_context ← optional_metadata metadata rpc_caller_context_metadata
      signature ← optional_metadata metadata rpc_caller_context_signature_metadata
      supplied security metadata identity now encoded_context signature

    abbrev pub leaf_of : Option (List (List ℕ)) → Checked Status (List ℕ)
    leaf_of none =
        refused (status unauthenticated "internal RPC requires a verified mTLS peer certificate")
    leaf_of (some []) =
        refused (status unauthenticated "internal RPC peer certificate chain is empty")
    leaf_of (some (leaf ∷ chain)) = passed leaf

    -- `if let Some(caller_context) = caller_context { extensions.insert(caller_context) }`.
    abbrev pub injected :
        Option VerifiedRpcCallerContext
        → Option VerifiedRpcCallerContext
        → Option VerifiedRpcCallerContext
    injected none before = before
    injected (some context) before = some context

    unfoldable pub verify_and_inject :
        X509 → RpcInternalServiceSecurity → SystemTime → Request → Checked Status Request
    verify_and_inject x509 security now request = do
      leaf ← leaf_of request.peer_certs
      identity ←
          map_identity_error
            (verify_tls_peer_certificate_der codec x509 security.service_identity_policy leaf)
      asserted ← validate_optional_service_assertion request.metadata identity
      caller_context ← verify_optional_caller_context security request.metadata identity now
      passed (record request {
        service_identity = some identity;
        caller_context = injected caller_context request.caller_context;
      })

  -- The accessors of the two extensions.
  unfoldable pub require_verified_rpc_service_identity :
      Request → Checked Status VerifiedRpcServiceIdentity
  require_verified_rpc_service_identity request =
      or_refuse request.service_identity
        (status unauthenticated "internal RPC request has no verified mTLS service identity")

  unfoldable pub require_verified_rpc_caller_context :
      Request → Checked Status VerifiedRpcCallerContext
  require_verified_rpc_caller_context request =
      or_refuse request.caller_context
        (status unauthenticated "internal RPC request has no verified caller context")

-- Whether a verifier is configured, which the method answers of `caller_context_verifier`.
abbrev pub has_caller_context_verifier : RpcInternalServiceSecurity → Bool
has_caller_context_verifier security = is_some security.caller_context_verifier
