-- ===== src/Core/CallerContext/Signer.antt =====
-- crates/sdkwork-rpc-core/src/caller_context.rs: `RpcCallerContextSigner`. The clock and the nonce of
-- `Uuid::new_v4().simple()` are arguments.
use Prim.Native.String.{String, ◌++◌}
use sdkwork_rpc_framework.Prelude.{ℕ, ◌⊎◌, inl, inr, not, ◌||◌, List, ltb, ◌==◌}
use sdkwork_rpc_framework.Prelude.Rust.{Duration, as_secs}
use sdkwork_rpc_framework.Prelude.Text.{decimal}
use sdkwork_rpc_framework.Prelude.Int.{ℤ, checked_add, try_i64}
use sdkwork_rpc_framework.External.{Codec}
use sdkwork_rpc_framework.Core.Error.{Result, ok, err, validation, ◌>>=◌, ◌>>◌, ensure, ok_or}
use sdkwork_rpc_framework.Core.Time.{SystemTime, unix_seconds}
use sdkwork_rpc_framework.Core.Identifier.{validate_identifier}
use sdkwork_rpc_framework.Core.CallerContext.{
  RpcCallerContext, RpcCallerContextSigningKey, SignedRpcCallerContext,
  SignedRpcCallerContextPayload, Json, caller_context_version, max_caller_context_ttl,
  signing_input,
}

pub record RpcCallerContextSigner : Type 0 where
  pub issuer_service_id : String
  pub signing_key : RpcCallerContextSigningKey
  pub max_ttl : Duration

unfoldable pub new : String → RpcCallerContextSigningKey → Result RpcCallerContextSigner
new issuer_service_id signing_key = do
  validate_identifier "issuer_service_id" issuer_service_id
  ok (record {
    issuer_service_id = issuer_service_id;
    signing_key = signing_key;
    max_ttl = max_caller_context_ttl;
  })

abbrev pub written : String ⊎ List ℕ → Result (List ℕ)
written (inl error) = err (validation ("failed to serialize rpc caller context: " ++ error))
written (inr bytes) = ok bytes

unfoldable pub payload_of :
    RpcCallerContextSigner → RpcCallerContext → ℤ → ℤ → String → SignedRpcCallerContextPayload
payload_of signer context issued expires nonce = record {
  version = caller_context_version;
  issuer_service_id = signer.issuer_service_id;
  audience_service_id = context.audience_service_id;
  tenant_id = context.tenant_id;
  organization_id = context.organization_id;
  actor_id = context.actor_id;
  actor_kind = context.actor_kind;
  session_id = context.session_id;
  request_id = context.request_id;
  trace_id = context.trace_id;
  idempotency_key = context.idempotency_key;
  issued_at_unix_seconds = issued;
  expires_at_unix_seconds = expires;
  nonce = nonce;
}

-- Base64url of the serialized payload, and the HMAC of the domain and that text.
unfoldable pub seal : Codec → RpcCallerContextSigningKey → List ℕ → SignedRpcCallerContext
seal codec key serialized =
    let encoded_context = codec.base64url_encode serialized in
    record {
      encoded_context = encoded_context;
      signature = codec.hmac_sha256_base64url (signing_input encoded_context) key.bytes;
    }

unfoldable pub sign_at :
    Codec
    → Json
    → RpcCallerContextSigner
    → RpcCallerContext
    → Duration
    → SystemTime
    → String
    → Result SignedRpcCallerContext
unfolding payload_of seal
sign_at codec json signer context ttl now nonce = do
  ensure (not (ttl == 0 || ltb signer.max_ttl ttl)) (
      validation (
        ("rpc caller context ttl must be between 1 second and " ++ decimal (as_secs signer.max_ttl))
        ++ " seconds"))
  issued ← unix_seconds now
  seconds ← ok_or (try_i64 (as_secs ttl)) (validation "rpc caller context ttl is too large")
  expires ← ok_or (checked_add issued seconds) (validation "rpc caller context expiry overflow")
  serialized ← written (json.to_vec (payload_of signer context issued expires nonce))
  ok (seal codec signer.signing_key serialized)
