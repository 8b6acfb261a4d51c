-- ===== src/Core/CallerContext/Completeness.antt =====
-- The converse of soundness for `verify` of crates/sdkwork-rpc-core/src/caller_context.rs.
use Prim.Native.String.{String}
use text.Mathlib.TextEquality.{eq_iff}
use sdkwork_rpc_framework.Prelude.{
  ℕ, ◌≤◌, ◌≡◌, ◌↔◌, refl, sym, subst, true, false, ◌||◌, Option, none, some, arith, ltb,
}
use sdkwork_rpc_framework.Prelude.Rust.{Duration, as_secs}
use sdkwork_rpc_framework.Prelude.Map.{lookup}
use sdkwork_rpc_framework.Prelude.Int.{
  ℤ, pos, negsuc, ◌+ℤ◌, ◌-ℤ◌, ◌≤ℤ◌, ltb_ℤ, saturating_add, saturating_sub, in_i64, i64_max, try_i64,
}
use sdkwork_rpc_framework.External.{Codec}
use sdkwork_rpc_framework.Core.Error.{ok}
use sdkwork_rpc_framework.Core.Time.{SystemTime, unix_seconds}
use sdkwork_rpc_framework.Core.ServiceIdentity.{VerifiedRpcServiceIdentity}
use sdkwork_rpc_framework.Core.CallerContext.{
  VerifiedRpcCallerContext, SignedRpcCallerContext, SignedRpcCallerContextPayload, Json,
  max_context_metadata_bytes,
}
use sdkwork_rpc_framework.Core.CallerContext.Verifier.{
  RpcCallerContextVerifier, validate_time_window, validate_metadata_idempotency, same_key, verify,
}
use sdkwork_rpc_framework.Core.CallerContext.Payload.{IsValid-validate_payload}
use sdkwork_rpc_framework.Core.CallerContext.Soundness.{
  IsCurrent, IsVouched, unix_seconds-eq-ok, verify-IsVouched,
}

saturating_add-room :
    (n k : ℕ) (issued : ℤ)
    → issued ≤ℤ pos n +ℤ pos k
    → issued ≤ℤ pos i64_max
    → ltb_ℤ (saturating_add (pos n) (pos k)) issued ≡ false
saturating_add-room n k (pos i) h r = ground arith
saturating_add-room n k (negsuc i) h r = ground arith

saturating_sub-room :
    (n k : ℕ) (expires : ℤ)
    → n ≤ i64_max
    → k ≤ i64_max
    → pos n -ℤ pos k ≤ℤ expires
    → ltb_ℤ expires (saturating_sub (pos n) (pos k)) ≡ false
saturating_sub-room n k (pos i) r s h = ground arith
saturating_sub-room n k (negsuc i) r s h = ground arith

unix_seconds-bound : (now : SystemTime) {n : ℕ} → unix_seconds now ≡ ok (pos n) → n ≤ i64_max
unix_seconds-bound now e = let (n, same, small) = unix_seconds-eq-ok now e in ground arith

try_i64-small : (n : ℕ) → n ≤ i64_max → try_i64 n ≡ some (pos n)
try_i64-small n h = ground arith

IsCurrent-validate_time_window :
    (payload : SignedRpcCallerContextPayload) (now : SystemTime) (skew : Duration)
    → IsCurrent payload now skew
    → payload.issued_at_unix_seconds ≤ℤ pos i64_max
    → as_secs skew ≤ i64_max
    → validate_time_window payload now skew ≡ ok tt
unfolding validate_time_window
IsCurrent-validate_time_window payload now skew h small limit =
    rw
      (
        h.read,
        try_i64-small (as_secs skew) limit,
        saturating_add-room h.clock (as_secs skew) payload.issued_at_unix_seconds h.issued small,
        saturating_sub-room h.clock (as_secs skew) payload.expires_at_unix_seconds
            (unix_seconds-bound now h.read) limit h.unexpired,
      )
      refl

sizes_fit :
    (a b : ℕ)
    → a ≤ max_context_metadata_bytes
    → b ≤ max_context_metadata_bytes
    → (ltb max_context_metadata_bytes a || ltb max_context_metadata_bytes b) ≡ false
sizes_fit a b h k = ground arith

in_i64-le : (a : ℤ) → in_i64 a ≡ true → a ≤ℤ pos i64_max
in_i64-le (pos n) h = ground arith
in_i64-le (negsuc n) h = ground arith

same_key_self : (a : Option String) → same_key a a ≡ true
same_key_self none = refl
same_key_self (some a) = (eq_iff a a).1 refl

module _ (codec : Codec) (json : Json) (verifier : RpcCallerContextVerifier)
    (signed : SignedRpcCallerContext) (peer : VerifiedRpcServiceIdentity)
    (idempotency : Option String) (now : SystemTime) where
  IsVouched-verify :
      (context : VerifiedRpcCallerContext)
      → IsVouched codec json verifier signed peer idempotency now context
      → as_secs verifier.max_clock_skew ≤ i64_max
      → verify codec json verifier signed peer idempotency now ≡ ok context
  unfolding verify validate_metadata_idempotency
  IsVouched-verify context h limit =
      let (stamped, _) = json.from_slice-in_i64 h.payload h.serialized h.parsed in
      rw
        (
          sizes_fit _ _ h.bounded h.signature_bounded,
          h.decoded,
          h.parsed,
          IsValid-validate_payload h.payload verifier.max_ttl h.valid,
          (eq_iff h.payload.audience_service_id verifier.audience_service_id).1 h.audience,
          (eq_iff h.payload.issuer_service_id peer.service_id).1 h.issuer,
          subst (λ id. lookup id verifier.issuer_keys ≡ some h.key) (sym h.issuer) h.trusted,
          h.sealed,
          h.authentic,
          IsCurrent-validate_time_window h.payload now verifier.max_clock_skew h.current
              (in_i64-le h.payload.issued_at_unix_seconds stamped) limit,
          subst (λ k. same_key h.payload.idempotency_key k ≡ true) h.idempotent
              (same_key_self h.payload.idempotency_key),
          h.carried,
        )
        refl

  -- A context is accepted exactly when it decodes to a valid payload for this audience, sealed under
  -- the trusted key of the peer that mTLS proved, within its time window and with the idempotency
  -- key of the request's metadata; the result carries that payload. The skew must fit an i64.
  pub verify_iff :
      (context : VerifiedRpcCallerContext)
      → as_secs verifier.max_clock_skew ≤ i64_max
      → (verify codec json verifier signed peer idempotency now ≡ ok context)
        ↔ IsVouched codec json verifier signed peer idempotency now context
  verify_iff context limit = (
    verify-IsVouched codec json verifier signed peer idempotency now context,
    λ h. IsVouched-verify context h limit,
  )
