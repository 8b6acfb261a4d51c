-- ===== src/Client/Metadata/Handled.antt =====
-- What a handler behind the interceptor of crates/sdkwork-rpc-server/src/security.rs sees of a call that
-- carries a credential of crates/sdkwork-rpc-client/src/metadata.rs.
use Prim.Native.String.{String}
use sdkwork_rpc_framework.Prelude.Text.{byte_len, eq_ignore_ascii_case}
use sdkwork_rpc_framework.Prelude.{ℕ, ◌+◌, ◌≤◌, ◌≡◌, false, refl, ◌∙◌, some, List, ◌∷◌}
use sdkwork_rpc_framework.Prelude.Rust.{as_secs, from_secs}
use sdkwork_rpc_framework.Prelude.Map.{lookup}
use sdkwork_rpc_framework.Prelude.Int.{pos, i64_max}
use sdkwork_rpc_framework.External.{Tonic, Codec, X509, MetadataNames}
use sdkwork_rpc_framework.Core.Error.{ok}
use sdkwork_rpc_framework.Core.Time.{SystemTime}
use sdkwork_rpc_framework.Core.Identifier.{IsIdentifier}
use sdkwork_rpc_framework.Core.ServiceIdentity.{
  VerifiedRpcServiceIdentity, verify_tls_peer_certificate_der,
}
use sdkwork_rpc_framework.Core.CallerContext.{
  VerifiedRpcCallerContext, RpcCallerContext, Json, max_context_metadata_bytes,
  rpc_caller_context_metadata, rpc_caller_context_signature_metadata,
  rpc_service_identity_assertion_metadata,
}
use sdkwork_rpc_framework.Core.CallerContext.Signer.{payload_of}
use sdkwork_rpc_framework.Core.CallerContext.Verifier.{RpcCallerContextVerifier, verified_of}
use sdkwork_rpc_framework.Core.CallerContext.Builder.{IsWellFormed}
use sdkwork_rpc_framework.Prelude.Checked.{passed}
use sdkwork_rpc_framework.Server.Security.{
  RpcInternalServiceSecurity, Request, validate_optional_service_assertion,
  verify_optional_caller_context, verify_and_inject, require_verified_rpc_service_identity,
  require_verified_rpc_caller_context,
}
use sdkwork_rpc_framework.Server.Security.Interceptor.{interceptor, call}
use sdkwork_rpc_framework.Client.Metadata.{
  RpcServiceCredential, SignedRpcServiceCredentialProvider, issue, apply_to,
}
use sdkwork_rpc_framework.Client.Metadata.Credential.{IsCarried, apply_to-IsCarried}
use sdkwork_rpc_framework.Client.Metadata.RoundTrip.{verify-apply_to-issue}

context-ne-assertion :
    eq_ignore_ascii_case rpc_caller_context_metadata rpc_service_identity_assertion_metadata ≡ false
unfolding eq_ignore_ascii_case
context-ne-assertion = refl

signature-ne-assertion :
    eq_ignore_ascii_case rpc_caller_context_signature_metadata
      rpc_service_identity_assertion_metadata
    ≡ false
unfolding eq_ignore_ascii_case
signature-ne-assertion = refl

key-ne-assertion :
    eq_ignore_ascii_case "idempotency-key" rpc_service_identity_assertion_metadata ≡ false
unfolding eq_ignore_ascii_case
key-ne-assertion = refl

module _ (tonic : Tonic) (codec : Codec) (json : Json) (names : MetadataNames) (x509 : X509)
    (security : RpcInternalServiceSecurity) (verifier : RpcCallerContextVerifier)
    (peer : VerifiedRpcServiceIdentity) where
  open tonic use {MetadataMap, Status}

  -- Applying a credential leaves the service assertion as it was.
  assertion-kept :
      (credential : RpcServiceCredential) (before after : MetadataMap)
      → IsCarried tonic names credential before after
      → validate_optional_service_assertion tonic after peer
        ≡ validate_optional_service_assertion tonic before peer
  unfolding validate_optional_service_assertion
  assertion-kept credential before after carried =
      rw
        (carried.others rpc_service_identity_assertion_metadata context-ne-assertion
          signature-ne-assertion key-ne-assertion)
        refl

  -- A call passes the interceptor if its peer certificate proves the peer, its own metadata asserts no other
  -- service, and its caller context verifies; a handler then finds the peer and that context.
  call-passes :
      (request : Request tonic) (leaf : List ℕ) (chain : List (List ℕ)) (now : SystemTime)
      (came : VerifiedRpcCallerContext)
      → request.peer_certs ≡ some (leaf ∷ chain)
      → verify_tls_peer_certificate_der codec x509 security.service_identity_policy leaf ≡ ok peer
      → validate_optional_service_assertion tonic request.metadata peer ≡ passed tt
      → verify_optional_caller_context tonic codec json security request.metadata peer now
        ≡ passed (some came)
      → (handled : Request tonic) × (call tonic codec json x509 now (interceptor security) request
          ≡ passed handled)
        × (require_verified_rpc_service_identity tonic handled ≡ passed peer)
        × (require_verified_rpc_caller_context tonic handled ≡ passed came)
  unfolding call verify_and_inject require_verified_rpc_service_identity
      require_verified_rpc_caller_context
  call-passes request leaf chain now came certified proven asserted verified = (
    record request { service_identity = some peer; caller_context = some came },
    rw (certified, proven, asserted, verified) refl,
    refl,
    refl,
  )

  -- A well-formed caller context that a credential provider issues for at least one second and puts on a
  -- call reaches the handler as it was signed, together with the identity that the peer's
  -- certificate proves: behind the interceptor of a server with a verifier of the context's
  -- audience that has the signer's key for its issuer and allows the signer's lifetimes, where
  -- the peer is the issuer and the call's own metadata asserts no other service, with the nonce an
  -- identifier, both texts at most 4096 bytes, the shared name of the idempotency key the one that the
  -- server reads, and a clock in range and at most the skew outside the signed window.
  pub call-apply_to-issue :
      (provider : SignedRpcServiceCredentialProvider) (context : RpcCallerContext) (nonce : String)
      (issued clock : ℕ) (credential : RpcServiceCredential) (before : MetadataMap)
      (request : Request tonic) (leaf : List ℕ) (chain : List (List ℕ))
      → issue codec json provider context (pos issued) nonce ≡ ok credential
      → apply_to tonic names credential before ≡ (request.metadata, ok tt)
      → request.peer_certs ≡ some (leaf ∷ chain)
      → verify_tls_peer_certificate_der codec x509 security.service_identity_policy leaf ≡ ok peer
      → validate_optional_service_assertion tonic before peer ≡ passed tt
      → names.idempotency_key ≡ "idempotency-key"
      → security.caller_context_verifier ≡ some verifier
      → IsWellFormed context
      → IsIdentifier provider.signer.issuer_service_id
      → IsIdentifier nonce
      → from_secs 1 ≤ provider.ttl
      → as_secs provider.signer.max_ttl ≤ as_secs verifier.max_ttl
      → context.audience_service_id ≡ verifier.audience_service_id
      → provider.signer.issuer_service_id ≡ peer.service_id
      → lookup peer.service_id verifier.issuer_keys ≡ some provider.signer.signing_key
      → byte_len credential.signed_caller_context.encoded_context ≤ max_context_metadata_bytes
      → byte_len credential.signed_caller_context.signature ≤ max_context_metadata_bytes
      → as_secs clock ≤ i64_max
      → as_secs verifier.max_clock_skew ≤ i64_max
      → as_secs issued ≤ as_secs clock + as_secs verifier.max_clock_skew
      → as_secs clock ≤ as_secs issued + as_secs provider.ttl + as_secs verifier.max_clock_skew
      → (handled : Request tonic) × (call tonic codec json x509
            (pos clock)
            (interceptor security)
            request
          ≡ passed handled)
        × (require_verified_rpc_service_identity tonic handled ≡ passed peer)
        × (require_verified_rpc_caller_context tonic handled
            ≡ passed (
                verified_of (
                  payload_of provider.signer context
                    (pos (as_secs issued))
                    (pos (as_secs issued + as_secs provider.ttl))
                    nonce)))
  call-apply_to-issue provider context nonce issued clock credential before request leaf chain made
        applied certified proven unasserted named configured formed issuer fresh long lifetimes
        audience peered trusted small short range skew early late =
      let carried =
        apply_to-IsCarried tonic names credential before request.metadata named applied in
      call-passes request leaf chain (pos clock) _ certified proven
        (assertion-kept credential before request.metadata carried ∙ unasserted)
        (verify-apply_to-issue tonic codec json names security verifier peer provider context nonce
          issued clock credential before request.metadata made applied named configured formed
          issuer fresh long lifetimes audience peered trusted small short range skew early late)
