-- ===== src/Core/CallerContext/Soundness.antt =====
-- What crates/sdkwork-rpc-core/src/caller_context.rs guarantees of a caller context that `verify` accepts.
use Prim.Native.String.{String}
use mathlib.Core.Path.{subst₂}
use text.Mathlib.Text.{◌==◌ as str_eq}
use text.Mathlib.TextEquality.{eq_iff}
use sdkwork_rpc_framework.Prelude.Text.{byte_len}
use sdkwork_rpc_framework.Prelude.{
  ℕ, ◌≡◌, refl, sym, ap, subst, ◌∙◌, true, not, ◌||◌, Option, none, some, List, arith, ltb, ◌≤◌,
}
use sdkwork_rpc_framework.Prelude.Rust.{Duration, as_secs}
use sdkwork_rpc_framework.Prelude.Map.{lookup}
use sdkwork_rpc_framework.Prelude.Int.{
  ℤ, pos, negsuc, ◌+ℤ◌, ◌-ℤ◌, ◌≤ℤ◌, ltb_ℤ, saturating_add, saturating_sub, i64_max, try_i64,
}
use sdkwork_rpc_framework.External.{Codec}
use sdkwork_rpc_framework.Core.Error.{ok, ok_or, of_bind, ensure-eq-ok, ok_or-eq-ok, ok_injective}
use sdkwork_rpc_framework.Core.Time.{SystemTime, unix_seconds}
use sdkwork_rpc_framework.Core.ServiceIdentity.{VerifiedRpcServiceIdentity}
use sdkwork_rpc_framework.Core.CallerContext.{
  RpcCallerContextSigningKey, SignedRpcCallerContext, VerifiedRpcCallerContext,
  SignedRpcCallerContextPayload, Json, max_context_metadata_bytes, signing_input,
}
use sdkwork_rpc_framework.Core.CallerContext.Verifier.{
  RpcCallerContextVerifier, validate_payload, validate_time_window, validate_metadata_idempotency,
  same_key, verified_of, verify,
}
use sdkwork_rpc_framework.Core.CallerContext.Payload.{IsValidPayload, validate_payload-IsValid}

-- The clock is inside the window of a payload, give or take the skew.
pub record IsCurrent (payload : SignedRpcCallerContextPayload) (now : SystemTime) (skew : Duration)
    : Type 0 where
  pub clock : ℕ
  pub read : unix_seconds now ≡ ok (pos clock)
  pub issued : payload.issued_at_unix_seconds ≤ℤ pos clock +ℤ pos (as_secs skew)
  pub unexpired : pos clock -ℤ pos (as_secs skew) ≤ℤ payload.expires_at_unix_seconds

pub unix_seconds-eq-ok :
    (now : SystemTime) {clock : ℤ}
    → unix_seconds now ≡ ok clock
    → (n : ℕ) × (clock ≡ pos n) × (n ≤ i64_max)
unfolding unix_seconds
unix_seconds-eq-ok (pos n) e = (as_secs n, ground arith, ground arith)
unix_seconds-eq-ok (negsuc n) e = cc

saturating_add-bound :
    (n k : ℕ) (issued : ℤ)
    → not (ltb_ℤ (saturating_add (pos n) (pos k)) issued) ≡ true
    → issued ≤ℤ pos n +ℤ pos k
saturating_add-bound n k (pos i) h = ground arith
saturating_add-bound n k (negsuc i) h = ground arith

saturating_sub-bound :
    (n k : ℕ) (expires : ℤ)
    → n ≤ i64_max
    → not (ltb_ℤ expires (saturating_sub (pos n) (pos k))) ≡ true
    → pos n -ℤ pos k ≤ℤ expires
saturating_sub-bound n k (pos i) r h = ground arith
saturating_sub-bound n k (negsuc i) r h = ground arith

try_i64-eq-some : (n : ℕ) {k : ℤ} → try_i64 n ≡ some k → k ≡ pos n
try_i64-eq-some n e = ground arith

validate_time_window-IsCurrent :
    (payload : SignedRpcCallerContextPayload) (now : SystemTime) (skew : Duration)
    → validate_time_window payload now skew ≡ ok tt
    → IsCurrent payload now skew
unfolding validate_time_window
validate_time_window-IsCurrent payload now skew e = of_bind (unix_seconds now) _ e λ clock q0 e0.
    of_bind (ok_or (try_i64 (as_secs skew)) _) _ e0 λ limit q1 e1.
      let (n, clocked, small) = unix_seconds-eq-ok now q0 in
      let limited = try_i64-eq-some (as_secs skew) (ok_or-eq-ok _ _ q1) in
      let (early, e2) =
        ensure-eq-ok (not (ltb_ℤ (saturating_add clock limit) payload.issued_at_unix_seconds)) _ _
          e1 in
      let (late, e3) =
        ensure-eq-ok (not (ltb_ℤ payload.expires_at_unix_seconds (saturating_sub clock limit))) _ _
          e2 in
      record {
        clock = n;
        read = q0 ∙ ap ok clocked;
        issued = saturating_add-bound n (as_secs skew) payload.issued_at_unix_seconds (
            subst₂ (λ c l. not (ltb_ℤ (saturating_add c l) payload.issued_at_unix_seconds) ≡ true)
              clocked limited early);
        unexpired = saturating_sub-bound n (as_secs skew) payload.expires_at_unix_seconds small (
            subst₂ (λ c l. not (ltb_ℤ payload.expires_at_unix_seconds (saturating_sub c l)) ≡ true)
              clocked limited late);
      }

-- What an accepted context proves: who sealed it, for whom, when, and for which request.
pub record IsVouched (codec : Codec) (json : Json) (verifier : RpcCallerContextVerifier)
    (signed : SignedRpcCallerContext) (peer_identity : VerifiedRpcServiceIdentity)
    (metadata_idempotency_key : Option String) (now : SystemTime)
    (context : VerifiedRpcCallerContext) : Type 0 where
  pub payload : SignedRpcCallerContextPayload
  pub serialized : List ℕ
  pub key : RpcCallerContextSigningKey
  pub signature : List ℕ
  pub bounded : byte_len signed.encoded_context ≤ max_context_metadata_bytes
  pub signature_bounded : byte_len signed.signature ≤ max_context_metadata_bytes
  pub decoded : codec.base64url_decode signed.encoded_context ≡ some serialized
  pub parsed : json.from_slice serialized ≡ some payload
  pub valid : IsValidPayload payload verifier.max_ttl
  pub audience : payload.audience_service_id ≡ verifier.audience_service_id
  pub issuer : payload.issuer_service_id ≡ peer_identity.service_id
  pub trusted : lookup peer_identity.service_id verifier.issuer_keys ≡ some key
  pub sealed : codec.base64url_decode signed.signature ≡ some signature
  pub authentic :
      codec.verify_hmac_sha256_base64url (signing_input signed.encoded_context) key.bytes signature
      ≡ true
  pub current : IsCurrent payload now verifier.max_clock_skew
  pub idempotent : payload.idempotency_key ≡ metadata_idempotency_key
  pub carried : context ≡ verified_of payload

sizes :
    (a b : ℕ)
    → not (ltb max_context_metadata_bytes a || ltb max_context_metadata_bytes b) ≡ true
    → (a ≤ max_context_metadata_bytes) × (b ≤ max_context_metadata_bytes)
sizes a b h = ground arith

pub same_key-eq-true : (a b : Option String) → same_key a b ≡ true → a ≡ b
same_key-eq-true (some a) (some b) h = ap some ((eq_iff a b).0 h)
same_key-eq-true none none h = refl
same_key-eq-true (some a) none h = cc
same_key-eq-true none (some b) h = cc

pub verify-IsVouched :
    (codec : Codec) (json : Json) (verifier : RpcCallerContextVerifier)
    (signed : SignedRpcCallerContext) (peer_identity : VerifiedRpcServiceIdentity)
    (metadata_idempotency_key : Option String) (now : SystemTime)
    (context : VerifiedRpcCallerContext)
    → verify codec json verifier signed peer_identity metadata_idempotency_key now ≡ ok context
    → IsVouched codec json verifier signed peer_identity metadata_idempotency_key now context
unfolding verify validate_metadata_idempotency
verify-IsVouched codec json verifier signed peer idempotency now context e =
    let (sized, e0) =
      ensure-eq-ok
        (not (
          ltb max_context_metadata_bytes (byte_len signed.encoded_context)
          || ltb max_context_metadata_bytes (byte_len signed.signature)))
        _ _ e in
    of_bind (ok_or (codec.base64url_decode signed.encoded_context) _) _ e0 λ serialized q1 e1.
      of_bind (ok_or (json.from_slice serialized) _) _ e1 λ payload q2 e2.
        of_bind (validate_payload payload verifier.max_ttl) _ e2 λ u3 q3 e3.
          let (audience, e4) =
            ensure-eq-ok (str_eq payload.audience_service_id verifier.audience_service_id) _ _ e3 in
          let (issuer, e5) =
            ensure-eq-ok (str_eq payload.issuer_service_id peer.service_id) _ _ e4 in
          of_bind (ok_or (lookup payload.issuer_service_id verifier.issuer_keys) _) _ e5
            λ key q6 e6.
              of_bind (ok_or (codec.base64url_decode signed.signature) _) _ e6 λ signature q7 e7.
                let (authentic, e8) =
                  ensure-eq-ok
                    (codec.verify_hmac_sha256_base64url (signing_input signed.encoded_context)
                      key.bytes signature)
                    _ _ e7 in
                of_bind (validate_time_window payload now verifier.max_clock_skew) _ e8 λ u9 q9 e9.
                  let (idempotent, last) =
                    ensure-eq-ok (same_key payload.idempotency_key idempotency) _ _ e9 in
                  let from = (eq_iff payload.issuer_service_id peer.service_id).0 issuer in
                  let (small, short) = sizes _ _ sized in
                  record {
                    payload = payload;
                    serialized = serialized;
                    key = key;
                    signature = signature;
                    bounded = small;
                    signature_bounded = short;
                    decoded = ok_or-eq-ok _ _ q1;
                    parsed = ok_or-eq-ok _ _ q2;
                    valid = validate_payload-IsValid payload verifier.max_ttl q3;
                    audience =
                        (eq_iff payload.audience_service_id verifier.audience_service_id).0
                          audience;
                    issuer = from;
                    trusted =
                        subst (λ id. lookup id verifier.issuer_keys ≡ some key) from
                          (ok_or-eq-ok _ _ q6);
                    sealed = ok_or-eq-ok _ _ q7;
                    authentic = authentic;
                    current = validate_time_window-IsCurrent payload now verifier.max_clock_skew q9;
                    idempotent = same_key-eq-true payload.idempotency_key idempotency idempotent;
                    carried = sym (ok_injective last);
                  }
