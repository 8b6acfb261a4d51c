-- ===== src/Client/Metadata/RoundTrip.antt =====
-- A caller context on its way from crates/sdkwork-rpc-client/src/metadata.rs, which signs it and puts it
-- on a call, to crates/sdkwork-rpc-server/src/security.rs, which reads and verifies it.
use Prim.Native.String.{String}
use sdkwork_rpc_framework.Prelude.Text.{byte_len}
use sdkwork_rpc_framework.Prelude.{ℕ, ◌+◌, ◌≤◌, ◌≡◌, refl, sym, subst, ap, ◌∙◌, some}
use sdkwork_rpc_framework.Prelude.Rust.{as_secs, from_secs}
use sdkwork_rpc_framework.Prelude.Map.{lookup}
use sdkwork_rpc_framework.Prelude.Int.{pos, i64_max}
use sdkwork_rpc_framework.External.{Tonic, Codec, MetadataNames}
use sdkwork_rpc_framework.Core.Error.{ok, of_bind, ok_injective}
use sdkwork_rpc_framework.Core.Identifier.{IsIdentifier}
use sdkwork_rpc_framework.Core.ServiceIdentity.{VerifiedRpcServiceIdentity}
use sdkwork_rpc_framework.Core.CallerContext.{
  RpcCallerContext, VerifiedRpcCallerContext, Json, max_context_metadata_bytes,
}
use sdkwork_rpc_framework.Core.CallerContext.Signer.{sign_at, payload_of}
use sdkwork_rpc_framework.Core.CallerContext.Verifier.{
  RpcCallerContextVerifier, verified_of, verify,
}
use sdkwork_rpc_framework.Core.CallerContext.Builder.{IsWellFormed}
use sdkwork_rpc_framework.Core.CallerContext.RoundTrip.{verify-sign_at}
use sdkwork_rpc_framework.Prelude.Checked.{passed}
use sdkwork_rpc_framework.Server.Security.{
  RpcInternalServiceSecurity, verify_supplied, verify_optional_caller_context,
}
use sdkwork_rpc_framework.Client.Metadata.{
  RpcServiceCredential, SignedRpcServiceCredentialProvider, issue, apply_to,
}
use sdkwork_rpc_framework.Client.Metadata.Credential.{IsCarried, apply_to-IsCarried}

-- What `issue` makes: the signer's context, with the key that it binds.
issue-eq-ok :
    (codec : Codec) (json : Json) (provider : SignedRpcServiceCredentialProvider)
    (context : RpcCallerContext) (issued : ℕ) (nonce : String) (credential : RpcServiceCredential)
    → issue codec json provider context (pos issued) nonce ≡ ok credential
    → (sign_at codec json provider.signer context provider.ttl (pos issued) nonce
        ≡ ok credential.signed_caller_context)
      × (credential.idempotency_key ≡ context.idempotency_key)
unfolding issue
issue-eq-ok codec json provider context issued nonce credential e =
    of_bind (sign_at codec json provider.signer context provider.ttl (pos issued) nonce) _ e
      λ signed q e'.
        let made = ok_injective e' in
        (q ∙ ap (λ c. ok c.signed_caller_context) made, sym (ap (λ c. c.idempotency_key) made))

module _ (tonic : Tonic) (codec : Codec) (json : Json) (names : MetadataNames)
    (security : RpcInternalServiceSecurity) (verifier : RpcCallerContextVerifier)
    (peer : VerifiedRpcServiceIdentity) where
  open tonic use {MetadataMap, Status}

  -- The server passes a carried context that its verifier accepts.
  carried-passes :
      (credential : RpcServiceCredential) (before metadata : MetadataMap) (clock : ℕ)
      (context : VerifiedRpcCallerContext)
      → IsCarried tonic names credential before metadata
      → security.caller_context_verifier ≡ some verifier
      → verify codec json verifier credential.signed_caller_context peer credential.idempotency_key
          (pos clock)
        ≡ ok context
      → verify_optional_caller_context tonic codec json security metadata peer (pos clock)
        ≡ passed (some context)
  unfolding verify_optional_caller_context verify_supplied
  carried-passes credential before metadata clock context carried configured accepted =
      rw (carried.context, carried.signature, configured, carried.key, accepted) refl

  -- A well-formed caller context that a credential provider issues for at least one second and that is
  -- applied to a call passes the server's check and comes out as it was signed: at a server with a
  -- verifier of the context's audience that has the signer's key for its issuer and allows the
  -- signer's lifetimes, behind a peer that is the issuer, with the nonce an identifier, both texts at most
  -- 4096 bytes, the shared name of the idempotency key the one that the server reads, and a clock in
  -- range and at most the skew outside the signed window.
  pub verify-apply_to-issue :
      (provider : SignedRpcServiceCredentialProvider) (context : RpcCallerContext) (nonce : String)
      (issued clock : ℕ) (credential : RpcServiceCredential) (before after : MetadataMap)
      → issue codec json provider context (pos issued) nonce ≡ ok credential
      → apply_to tonic names credential before ≡ (after, ok tt)
      → names.idempotency_key ≡ "idempotency-key"
      → security.caller_context_verifier ≡ some verifier
      → IsWellFormed context
      → IsIdentifier provider.signer.issuer_service_id
      → IsIdentifier nonce
      → from_secs 1 ≤ provider.ttl
      → as_secs provider.signer.max_ttl ≤ as_secs verifier.max_ttl
      → context.audience_service_id ≡ verifier.audience_service_id
      → provider.signer.issuer_service_id ≡ peer.service_id
      → lookup peer.service_id verifier.issuer_keys ≡ some provider.signer.signing_key
      → byte_len credential.signed_caller_context.encoded_context ≤ max_context_metadata_bytes
      → byte_len credential.signed_caller_context.signature ≤ max_context_metadata_bytes
      → as_secs clock ≤ i64_max
      → as_secs verifier.max_clock_skew ≤ i64_max
      → as_secs issued ≤ as_secs clock + as_secs verifier.max_clock_skew
      → as_secs clock ≤ as_secs issued + as_secs provider.ttl + as_secs verifier.max_clock_skew
      → verify_optional_caller_context tonic codec json security after peer (pos clock)
        ≡ passed (
            some (
              verified_of (
                payload_of provider.signer context
                  (pos (as_secs issued))
                  (pos (as_secs issued + as_secs provider.ttl))
                  nonce)))
  verify-apply_to-issue provider context nonce issued clock credential before after made applied
        named configured formed issuer fresh long lifetimes audience peered trusted small short
        range skew early late =
      let (signed, bound) = issue-eq-ok codec json provider context issued nonce credential made in
      let came = verified_of (
        payload_of provider.signer context (pos (as_secs issued))
          (pos (as_secs issued + as_secs provider.ttl)) nonce) in
      carried-passes credential before after clock came
        (apply_to-IsCarried tonic names credential before after named applied) configured
        (subst
          (λ key.
            verify codec json verifier credential.signed_caller_context peer key (pos clock)
            ≡ ok came)
          (sym bound)
          (verify-sign_at codec json provider.signer verifier peer context provider.ttl nonce issued
            clock credential.signed_caller_context signed formed issuer fresh long lifetimes
            audience peered trusted small short range skew early late))
