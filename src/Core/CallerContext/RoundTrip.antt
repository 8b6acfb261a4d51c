-- ===== src/Core/CallerContext/RoundTrip.antt =====
-- A caller context that crates/sdkwork-rpc-core/src/caller_context.rs signs and then verifies.
use Prim.Native.String.{String}
use sdkwork_rpc_framework.Prelude.Text.{byte_len}
use sdkwork_rpc_framework.Prelude.{ℕ, ◌+◌, ◌≤◌, ◌<◌, ◌≡◌, refl, sym, subst, true, some, arith}
use sdkwork_rpc_framework.Prelude.Rust.{Duration, as_secs, from_secs}
use sdkwork_rpc_framework.Prelude.Map.{lookup}
use sdkwork_rpc_framework.Prelude.Int.{pos, ◌+ℤ◌, ◌-ℤ◌, ◌≤ℤ◌, i64_max}
use sdkwork_rpc_framework.External.{Codec}
use sdkwork_rpc_framework.Core.Error.{ok}
use sdkwork_rpc_framework.Core.Time.{unix_seconds}
use sdkwork_rpc_framework.Core.Identifier.{IsIdentifier}
use sdkwork_rpc_framework.Core.ServiceIdentity.{VerifiedRpcServiceIdentity}
use sdkwork_rpc_framework.Core.CallerContext.{
  RpcCallerContext, SignedRpcCallerContext, Json, max_context_metadata_bytes, signing_input,
}
use sdkwork_rpc_framework.Core.CallerContext.Signer.{
  RpcCallerContextSigner, sign_at, payload_of, seal,
}
use sdkwork_rpc_framework.Core.CallerContext.Verifier.{
  RpcCallerContextVerifier, verified_of, verify,
}
use sdkwork_rpc_framework.Core.CallerContext.Payload.{IsValidPayload}
use sdkwork_rpc_framework.Core.CallerContext.Builder.{IsWellFormed}
use sdkwork_rpc_framework.Core.CallerContext.Completeness.{verify_iff}
use sdkwork_rpc_framework.Core.CallerContext.Sealing.{sign_at-IsSealed}

sub-add : (a b : ℕ) → pos (a + b) -ℤ pos a ≡ pos b
sub-add a b = ground arith

in_range-unix_seconds :
    (clock : ℕ) → as_secs clock ≤ i64_max → unix_seconds (pos clock) ≡ ok (pos (as_secs clock))
unfolding unix_seconds
in_range-unix_seconds clock h = ground arith

window-early : (a c k : ℕ) → a ≤ c + k → pos a ≤ℤ pos c +ℤ pos k
window-early a c k h = ground arith

window-late : (a b c k : ℕ) → c ≤ a + b + k → pos c -ℤ pos k ≤ℤ pos (a + b)
window-late a b c k h = ground arith

-- The signer's payload is valid for a verifier that allows at least the signer's lifetimes.
payload_of-IsValid :
    (signer : RpcCallerContextSigner) (context : RpcCallerContext) (nonce : String) (a b : ℕ)
    (max_ttl : Duration)
    → IsWellFormed context
    → IsIdentifier signer.issuer_service_id
    → IsIdentifier nonce
    → 0 < b
    → b ≤ i64_max
    → b ≤ as_secs max_ttl
    → IsValidPayload (payload_of signer context (pos a) (pos (a + b)) nonce) max_ttl
unfolding payload_of
payload_of-IsValid signer context nonce a b max_ttl formed issuer fresh positive small within =
    let (tenant, (organization, (actor, (request, (audience, end))))) = formed.required in
    record {
      versioned = refl;
      required = (issuer, (audience, (tenant, (organization, (actor, (request, (fresh, tt)))))));
      with_session = formed.with_session;
      optional = formed.optional;
      ttl = b;
      lifetime = sub-add a b;
      positive = positive;
      in_range = small;
      within = within;
    }

module _ (codec : Codec) (json : Json) (signer : RpcCallerContextSigner)
    (verifier : RpcCallerContextVerifier) (peer : VerifiedRpcServiceIdentity)
    (context : RpcCallerContext) (ttl : Duration) (nonce : String) (issued clock : ℕ)
    (signed : SignedRpcCallerContext) where
  -- A well-formed context that is signed for at least one second, with an identifier for a nonce,
  -- verifies, and yields the fields that were signed: at a verifier of its audience that has the
  -- signer's key for its issuer and allows the signer's lifetimes, behind a peer that is the issuer,
  -- with the metadata's idempotency key its own, both texts at most 4096 bytes, and a clock
  -- in range and at most the skew outside the signed window.
  pub verify-sign_at :
      sign_at codec json signer context ttl (pos issued) nonce ≡ ok signed
      → IsWellFormed context
      → IsIdentifier signer.issuer_service_id
      → IsIdentifier nonce
      → from_secs 1 ≤ ttl
      → as_secs signer.max_ttl ≤ as_secs verifier.max_ttl
      → context.audience_service_id ≡ verifier.audience_service_id
      → signer.issuer_service_id ≡ peer.service_id
      → lookup peer.service_id verifier.issuer_keys ≡ some signer.signing_key
      → byte_len signed.encoded_context ≤ max_context_metadata_bytes
      → byte_len signed.signature ≤ max_context_metadata_bytes
      → as_secs clock ≤ i64_max
      → as_secs verifier.max_clock_skew ≤ i64_max
      → as_secs issued ≤ as_secs clock + as_secs verifier.max_clock_skew
      → as_secs clock ≤ as_secs issued + as_secs ttl + as_secs verifier.max_clock_skew
      → verify codec json verifier signed peer context.idempotency_key (pos clock)
        ≡ ok (
            verified_of (
              payload_of signer context
                (pos (as_secs issued))
                (pos (as_secs issued + as_secs ttl))
                nonce))
  unfolding payload_of seal
  verify-sign_at e formed issuer fresh long lifetimes audience peered trusted small short range skew
        early late =
      let made = sign_at-IsSealed codec json signer context ttl issued nonce signed e in
      let mac =
        codec.signature_bytes (signing_input (codec.base64url_encode made.serialized))
          signer.signing_key.bytes in
      (verify_iff codec json verifier signed peer context.idempotency_key (pos clock) _ skew).1
        (record {
          payload =
              payload_of signer context (pos (as_secs issued)) (pos (as_secs issued + as_secs ttl))
                nonce;
          serialized = made.serialized;
          key = signer.signing_key;
          signature = mac;
          bounded = small;
          signature_bounded = short;
          decoded =
              subst (λ s. codec.base64url_decode s.encoded_context ≡ some made.serialized)
                (sym made.shape) (codec.base64url_decode-encode made.serialized);
          parsed = json.from_slice-to_vec _ made.serialized made.written;
          valid =
              payload_of-IsValid signer context nonce (as_secs issued) (as_secs ttl)
                verifier.max_ttl formed issuer fresh (omega arith)
                (omega (arith, made.expires_fits)) (omega (arith, made.limited));
          audience = audience;
          issuer = peered;
          trusted = trusted;
          sealed =
              subst (λ s. codec.base64url_decode s.signature ≡ some mac) (sym made.shape)
                (codec.base64url_decode-hmac _ signer.signing_key.bytes);
          authentic =
              subst
                (λ s.
                  codec.verify_hmac_sha256_base64url (signing_input s.encoded_context)
                    signer.signing_key.bytes mac
                  ≡ true)
                (sym made.shape) (codec.verify-hmac _ signer.signing_key.bytes);
          current = record {
            clock = as_secs clock;
            read = in_range-unix_seconds clock range;
            issued = window-early (as_secs issued) (as_secs clock) _ early;
            unexpired = window-late (as_secs issued) (as_secs ttl) (as_secs clock) _ late;
          };
          idempotent = refl;
          carried = refl;
        })
