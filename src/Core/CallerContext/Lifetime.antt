-- ===== src/Core/CallerContext/Lifetime.antt =====
-- Lifetimes below one second in crates/sdkwork-rpc-core/src/caller_context.rs: the signer's limit is on
-- the duration, the verifier's on whole seconds.
use Prim.Native.String.{String}
use sdkwork_rpc_framework.Prelude.{ℕ, ◌+◌, ◌<◌, ◌≡◌, ◌≢◌, sym, subst, Option, some, arith}
use sdkwork_rpc_framework.Prelude.Rust.{Duration, as_secs, from_secs}
use sdkwork_rpc_framework.Prelude.Int.{pos, ◌-ℤ◌}
use sdkwork_rpc_framework.External.{Codec}
use sdkwork_rpc_framework.Core.Error.{ok}
use sdkwork_rpc_framework.Core.Time.{SystemTime}
use sdkwork_rpc_framework.Core.ServiceIdentity.{VerifiedRpcServiceIdentity}
use sdkwork_rpc_framework.Core.CallerContext.{
  RpcCallerContext, VerifiedRpcCallerContext, SignedRpcCallerContext, Json,
}
use sdkwork_rpc_framework.Core.CallerContext.Signer.{
  RpcCallerContextSigner, sign_at, payload_of, seal,
}
use sdkwork_rpc_framework.Core.CallerContext.Verifier.{RpcCallerContextVerifier, verify}
use sdkwork_rpc_framework.Core.CallerContext.Payload.{IsValidPayload}
use sdkwork_rpc_framework.Core.CallerContext.Soundness.{IsVouched}
use sdkwork_rpc_framework.Core.CallerContext.Soundness.{verify-IsVouched}
use sdkwork_rpc_framework.Core.CallerContext.Sealing.{IsSealed, sign_at-IsSealed}

lifetime-positive : (a b t : ℕ) → pos (a + b) -ℤ pos a ≡ pos t → 0 < t → 0 < b
lifetime-positive a b t h p = ground arith

-- A payload that is sealed, and then decoded by a verifier, is the same payload.
IsVouched-payload :
    (codec : Codec) (json : Json) (signer : RpcCallerContextSigner)
    (verifier : RpcCallerContextVerifier) (peer : VerifiedRpcServiceIdentity)
    (context : RpcCallerContext) (ttl : Duration) (nonce : String) (issued : ℕ)
    (idempotency : Option String) (now : SystemTime) (signed : SignedRpcCallerContext)
    (verified : VerifiedRpcCallerContext)
    → IsSealed codec json signer context ttl issued nonce signed
    → (h : IsVouched codec json verifier signed peer idempotency now verified)
    → h.payload
      ≡ payload_of signer context (pos (as_secs issued)) (pos (as_secs issued + as_secs ttl)) nonce
unfolding seal
IsVouched-payload codec json signer verifier peer context ttl nonce issued idempotency now signed
      verified made h =
    let decoded =
      subst (λ s. codec.base64url_decode s.encoded_context ≡ some made.serialized) (sym made.shape)
        (codec.base64url_decode-encode made.serialized) in
    let same : h.serialized ≡ made.serialized = cc (decoded, h.decoded) in
    let parsed = json.from_slice-to_vec _ made.serialized made.written in
    cc (same, parsed, h.parsed)

-- A context that is signed for less than a second is refused by every verifier, whatever its keys,
-- its peer and its clock.
pub verify-subsecond :
    (codec : Codec) (json : Json) (signer : RpcCallerContextSigner)
    (verifier : RpcCallerContextVerifier) (peer : VerifiedRpcServiceIdentity)
    (context : RpcCallerContext) (ttl : Duration) (nonce : String) (issued : ℕ)
    (idempotency : Option String) (now : SystemTime) (signed : SignedRpcCallerContext)
    (verified : VerifiedRpcCallerContext)
    → sign_at codec json signer context ttl (pos issued) nonce ≡ ok signed
    → ttl < from_secs 1
    → verify codec json verifier signed peer idempotency now ≢ ok verified
unfolding payload_of
verify-subsecond codec json signer verifier peer context ttl nonce issued idempotency now signed
      verified e brief v =
    let made = sign_at-IsSealed codec json signer context ttl issued nonce signed e in
    let h = verify-IsVouched codec json verifier signed peer idempotency now verified v in
    let same =
      IsVouched-payload codec json signer verifier peer context ttl nonce issued idempotency now
        signed verified made h in
    let valid = subst (λ p. IsValidPayload p verifier.max_ttl) same h.valid in
    omega (
      arith,
      brief,
      lifetime-positive (as_secs issued) (as_secs ttl) valid.ttl valid.lifetime valid.positive,
    )
