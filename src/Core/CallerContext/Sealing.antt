-- ===== src/Core/CallerContext/Sealing.antt =====
-- What a signed context holds, when `sign_at` of crates/sdkwork-rpc-core/src/caller_context.rs makes one.
use Prim.Native.String.{String}
use mathlib.Core.Path.{subst₂}
use sdkwork_rpc_framework.Prelude.{
  ℕ, ◌+◌, ◌≤◌, ◌≡◌, sym, true, not, ◌||◌, ◌⊎◌, inl, inr, some, List, arith, ltb, ◌==◌,
}
use sdkwork_rpc_framework.Prelude.Rust.{Duration, as_secs}
use sdkwork_rpc_framework.Prelude.Int.{ℤ, pos, i64_max, try_i64, checked_add}
use sdkwork_rpc_framework.External.{Codec}
use sdkwork_rpc_framework.Core.Error.{ok, ok_or, of_bind, ensure-eq-ok, ok_or-eq-ok, ok_injective}
use sdkwork_rpc_framework.Core.Time.{unix_seconds}
use sdkwork_rpc_framework.Core.CallerContext.{RpcCallerContext, SignedRpcCallerContext, Json}
use sdkwork_rpc_framework.Core.CallerContext.Signer.{
  RpcCallerContextSigner, written, sign_at, payload_of, seal,
}

-- What `sign_at` checked and made, when it succeeds.
pub record IsSealed (codec : Codec) (json : Json) (signer : RpcCallerContextSigner)
    (context : RpcCallerContext) (ttl : Duration) (issued : ℕ) (nonce : String)
    (signed : SignedRpcCallerContext) : Type 0 where
  pub serialized : List ℕ
  pub limited : ttl ≤ signer.max_ttl
  pub issued_fits : as_secs issued ≤ i64_max
  pub expires_fits : as_secs issued + as_secs ttl ≤ i64_max
  pub written :
      json.to_vec (
        payload_of signer context (pos (as_secs issued)) (pos (as_secs issued + as_secs ttl)) nonce)
      ≡ inr serialized
  pub shape : signed ≡ seal codec signer.signing_key serialized

unix_seconds-pos :
    (issued : ℕ) {from : ℤ}
    → unix_seconds (pos issued) ≡ ok from
    → (from ≡ pos (as_secs issued)) × (as_secs issued ≤ i64_max)
unfolding unix_seconds
unix_seconds-pos issued e = ground arith

lifetime-pos :
    (a b : ℕ) {from seconds until : ℤ}
    → from ≡ pos a
    → try_i64 b ≡ some seconds
    → checked_add from seconds ≡ some until
    → (until ≡ pos (a + b)) × (a + b ≤ i64_max)
lifetime-pos a b p q r = ground arith

written-eq-ok : (w : String ⊎ List ℕ) {bytes : List ℕ} → written w ≡ ok bytes → w ≡ inr bytes
written-eq-ok (inl text) h = cc
written-eq-ok (inr bytes) h = ground arith

ttl_fits : (a b : ℕ) → not (a == 0 || ltb b a) ≡ true → a ≤ b
ttl_fits a b h = ground arith

pub sign_at-IsSealed :
    (codec : Codec) (json : Json) (signer : RpcCallerContextSigner) (context : RpcCallerContext)
    (ttl : Duration) (issued : ℕ) (nonce : String) (signed : SignedRpcCallerContext)
    → sign_at codec json signer context ttl (pos issued) nonce ≡ ok signed
    → IsSealed codec json signer context ttl issued nonce signed
unfolding sign_at
sign_at-IsSealed codec json signer context ttl issued nonce signed e =
    let (limited, e0) = ensure-eq-ok (not (ttl == 0 || ltb signer.max_ttl ttl)) _ _ e in
    of_bind (unix_seconds (pos issued)) _ e0 λ from q1 e1.
      of_bind (ok_or (try_i64 (as_secs ttl)) _) _ e1 λ seconds q2 e2.
        of_bind (ok_or (checked_add from seconds) _) _ e2 λ until q3 e3.
          of_bind (written (json.to_vec (payload_of signer context from until nonce))) _ e3
            λ serialized q4 e4.
              let (from', issued_fits) = unix_seconds-pos issued q1 in
              let (until', expires_fits) =
                lifetime-pos (as_secs issued) (as_secs ttl) from' (ok_or-eq-ok _ _ q2)
                  (ok_or-eq-ok _ _ q3) in
              record {
                serialized = serialized;
                limited = ttl_fits ttl signer.max_ttl limited;
                issued_fits = issued_fits;
                expires_fits = expires_fits;
                written =
                    subst₂
                      (λ f u. json.to_vec (payload_of signer context f u nonce) ≡ inr serialized)
                      from' until' (written-eq-ok _ q4);
                shape = sym (ok_injective e4);
              }
