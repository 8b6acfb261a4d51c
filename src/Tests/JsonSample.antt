-- ===== src/Tests/JsonSample.antt =====
-- A stand-in for serde_json that reads and writes one payload.
use Prim.Native.String.{String}
use text.Mathlib.Text.{◌==◌ as str_eq}
use text.Mathlib.TextEquality.{eq_iff}
use sdkwork_rpc_framework.Prelude.{
  ℕ, ◌≡◌, refl, Bool, true, false, ◌&&◌, ◌⊎◌, inl, inr, Option, none, some, List, [], ◌∷◌, arith,
  ◌==◌, if◌then◌else◌,
}
use sdkwork_rpc_framework.Prelude.Int.{ℤ, in_i64, pos, negsuc}
use sdkwork_rpc_framework.Core.CallerContext.{
  RpcCallerActorKind, user, service, SignedRpcCallerContextPayload, Json,
}
use sdkwork_rpc_framework.Core.CallerContext.Verifier.{same_key}
use sdkwork_rpc_framework.Core.CallerContext.Soundness.{same_key-eq-true}
use sdkwork_rpc_framework.Tests.Instances.{same_numbers}

unfoldable pub same_kind : RpcCallerActorKind → RpcCallerActorKind → Bool
same_kind user user = true
same_kind service service = true
same_kind user service = false
same_kind service user = false

unfoldable pub same_int : ℤ → ℤ → Bool
same_int (pos m) (pos n) = m == n
same_int (negsuc m) (negsuc n) = m == n
same_int (pos m) (negsuc n) = false
same_int (negsuc m) (pos n) = false

unfoldable pub same : SignedRpcCallerContextPayload → SignedRpcCallerContextPayload → Bool
unfolding same_kind same_int
same p q =
    p.version == q.version
    && str_eq p.issuer_service_id q.issuer_service_id
    && str_eq p.audience_service_id q.audience_service_id
    && str_eq p.tenant_id q.tenant_id
    && str_eq p.organization_id q.organization_id
    && str_eq p.actor_id q.actor_id
    && same_kind p.actor_kind q.actor_kind
    && same_key p.session_id q.session_id
    && str_eq p.request_id q.request_id
    && same_key p.trace_id q.trace_id
    && same_key p.idempotency_key q.idempotency_key
    && same_int p.issued_at_unix_seconds q.issued_at_unix_seconds
    && same_int p.expires_at_unix_seconds q.expires_at_unix_seconds
    && str_eq p.nonce q.nonce

same_kind-eq : (a b : RpcCallerActorKind) → same_kind a b ≡ true → a ≡ b
unfolding same_kind
same_kind-eq user user h = refl
same_kind-eq service service h = refl
same_kind-eq user service h = cc
same_kind-eq service user h = cc

same_int-eq : (a b : ℤ) → same_int a b ≡ true → a ≡ b
unfolding same_int
same_int-eq (pos m) (pos n) h = ground arith
same_int-eq (negsuc m) (negsuc n) h = ground arith
same_int-eq (pos m) (negsuc n) h = cc
same_int-eq (negsuc m) (pos n) h = cc

same-eq : (p q : SignedRpcCallerContextPayload) → same p q ≡ true → p ≡ q
unfolding same
same-eq p q h = ground (
  arith,
  eq_iff p.issuer_service_id q.issuer_service_id,
  eq_iff p.audience_service_id q.audience_service_id,
  eq_iff p.tenant_id q.tenant_id,
  eq_iff p.organization_id q.organization_id,
  eq_iff p.actor_id q.actor_id,
  same_kind-eq p.actor_kind q.actor_kind,
  same_key-eq-true p.session_id q.session_id,
  eq_iff p.request_id q.request_id,
  same_key-eq-true p.trace_id q.trace_id,
  same_key-eq-true p.idempotency_key q.idempotency_key,
  same_int-eq p.issued_at_unix_seconds q.issued_at_unix_seconds,
  same_int-eq p.expires_at_unix_seconds q.expires_at_unix_seconds,
  eq_iff p.nonce q.nonce,
)

unfoldable pub write :
    SignedRpcCallerContextPayload → SignedRpcCallerContextPayload → String ⊎ List ℕ
unfolding same
write p q = if same q p then inr (1 ∷ []) else inl "not the sample"

unfoldable pub read : SignedRpcCallerContextPayload → List ℕ → Option SignedRpcCallerContextPayload
unfolding same_numbers
read p bytes = if same_numbers bytes (1 ∷ []) then some p else none

pub read-write :
    (p q : SignedRpcCallerContextPayload) (bytes : List ℕ)
    → write p q ≡ inr bytes
    → read p bytes ≡ some q
unfolding write read
read-write p q bytes h = ground (arith, same-eq q p)

pub read-in_i64 :
    (p q : SignedRpcCallerContextPayload) (bytes : List ℕ)
    → in_i64 p.issued_at_unix_seconds ≡ true
    → in_i64 p.expires_at_unix_seconds ≡ true
    → read p bytes ≡ some q
    → (in_i64 q.issued_at_unix_seconds ≡ true) × (in_i64 q.expires_at_unix_seconds ≡ true)
unfolding read
read-in_i64 p q bytes h k e = ground arith

-- A serializer that knows one payload.
unfoldable pub only :
    (p : SignedRpcCallerContextPayload)
    → in_i64 p.issued_at_unix_seconds ≡ true
    → in_i64 p.expires_at_unix_seconds ≡ true
    → Json
unfolding write read
only p h k = record {
  to_vec = write p;
  from_slice = read p;
  from_slice-to_vec = read-write p;
  from_slice-in_i64 = λ q bytes e. read-in_i64 p q bytes h k e;
}
