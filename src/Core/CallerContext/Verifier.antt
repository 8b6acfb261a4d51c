-- ===== src/Core/CallerContext/Verifier.antt =====
-- crates/sdkwork-rpc-core/src/caller_context.rs: `RpcCallerContextVerifier` and the checks on a payload.
use Prim.Native.String.{String, ◌++◌}
use text.Mathlib.Text.{◌==◌ as str_eq}
use sdkwork_rpc_framework.Prelude.{
  Bool, true, false, not, ◌||◌, Option, none, some, List, [], ◌∷◌, ltb, length, ◌==◌,
}
use sdkwork_rpc_framework.Prelude.Rust.{Duration, as_secs}
use sdkwork_rpc_framework.Prelude.Text.{byte_len, decimal}
use sdkwork_rpc_framework.Prelude.Map.{Map, lookup, insert}
use sdkwork_rpc_framework.Prelude.Int.{
  ℤ, pos, negsuc, ltb_ℤ, checked_sub, saturating_add, saturating_sub, try_i64,
}
use sdkwork_rpc_framework.External.{Codec}
use sdkwork_rpc_framework.Core.Error.{
  Result, ok, validation, configuration, ◌>>=◌, ◌>>◌, ensure, ok_or,
}
use sdkwork_rpc_framework.Core.Time.{SystemTime, unix_seconds}
use sdkwork_rpc_framework.Core.Identifier.{validate_identifier}
use sdkwork_rpc_framework.Core.ServiceIdentity.{VerifiedRpcServiceIdentity}
use sdkwork_rpc_framework.Core.CallerContext.{
  RpcCallerContextSigningKey, SignedRpcCallerContext, VerifiedRpcCallerContext,
  SignedRpcCallerContextPayload, Json, caller_context_version, max_caller_context_ttl,
  max_clock_skew, max_context_metadata_bytes, lacks_session, signing_input, validated_identifier,
}

pub record RpcCallerContextVerifier : Type 0 where
  pub audience_service_id : String
  pub issuer_keys : Map RpcCallerContextSigningKey
  pub max_ttl : Duration
  pub max_clock_skew : Duration

-- `collect` into a map keeps the later of two entries for one key.
collect_keys :
    Map RpcCallerContextSigningKey
    → List (String × RpcCallerContextSigningKey)
    → Result (Map RpcCallerContextSigningKey)
unfolding validated_identifier
collect_keys keys [] = ok keys
collect_keys keys ((service_id, key) ∷ rest) = do
  issuer ← validated_identifier "issuer_service_id" service_id
  collect_keys (insert issuer key keys) rest

unfoldable pub new :
    String → List (String × RpcCallerContextSigningKey) → Result RpcCallerContextVerifier
unfolding collect_keys
new audience_service_id issuer_keys = do
  validate_identifier "audience_service_id" audience_service_id
  keys ← collect_keys [] issuer_keys
  ensure (not (length keys == 0))
      (configuration "rpc caller context verifier requires at least one trusted issuer key")
  ok (record {
    audience_service_id = audience_service_id;
    issuer_keys = keys;
    max_ttl = max_caller_context_ttl;
    max_clock_skew = max_clock_skew;
  })

abbrev pub required_fields : SignedRpcCallerContextPayload → List (String × String)
required_fields payload =
    ("issuer_service_id", payload.issuer_service_id)
    ∷ ("audience_service_id", payload.audience_service_id)
    ∷ ("tenant_id", payload.tenant_id)
    ∷ ("organization_id", payload.organization_id)
    ∷ ("actor_id", payload.actor_id)
    ∷ ("request_id", payload.request_id)
    ∷ ("nonce", payload.nonce)
    ∷ []

abbrev pub optional_fields : SignedRpcCallerContextPayload → List (String × Option String)
optional_fields payload =
    ("session_id", payload.session_id)
    ∷ ("trace_id", payload.trace_id)
    ∷ ("idempotency_key", payload.idempotency_key)
    ∷ []

-- The two loops of `validate_payload`.
unfoldable pub validate_fields : List (String × String) → Result (Unit {0})
validate_fields [] = ok tt
validate_fields ((field, value) ∷ rest) = validate_identifier field value >> validate_fields rest

unfoldable pub validate_options : List (String × Option String) → Result (Unit {0})
validate_options [] = ok tt
validate_options ((field, none) ∷ rest) = validate_options rest
validate_options ((field, some value) ∷ rest) =
    validate_identifier field value >> validate_options rest

-- `ttl <= 0 || u64::try_from(ttl).ok().is_none_or(|value| value > max_ttl.as_secs())`.
abbrev pub ttl_refused : Duration → ℤ → Bool
ttl_refused max_ttl (pos ttl) = ttl == 0 || ltb (as_secs max_ttl) ttl
ttl_refused max_ttl (negsuc n) = true

unfoldable pub validate_payload : SignedRpcCallerContextPayload → Duration → Result (Unit {0})
unfolding validate_fields validate_options
validate_payload payload max_ttl = do
  ensure (payload.version == caller_context_version)
      (validation "unsupported rpc caller context version")
  validate_fields (required_fields payload)
  ensure (not (lacks_session payload.actor_kind payload.session_id))
      (validation "user rpc caller context requires a session_id")
  validate_options (optional_fields payload)
  ttl ←
      ok_or (checked_sub payload.expires_at_unix_seconds payload.issued_at_unix_seconds)
        (validation "rpc caller context expiry precedes issue time")
  ensure (not (ttl_refused max_ttl ttl)) (
      validation (
        ("rpc caller context ttl must be between 1 second and " ++ decimal (as_secs max_ttl))
        ++ " seconds"))
  ok tt

unfoldable pub validate_time_window :
    SignedRpcCallerContextPayload → SystemTime → Duration → Result (Unit {0})
validate_time_window payload now skew_limit = do
  now ← unix_seconds now
  skew ←
      ok_or (try_i64 (as_secs skew_limit)) (validation "rpc caller context clock skew is too large")
  ensure (not (ltb_ℤ (saturating_add now skew) payload.issued_at_unix_seconds))
      (validation "rpc caller context is issued in the future")
  ensure (not (ltb_ℤ payload.expires_at_unix_seconds (saturating_sub now skew)))
      (validation "rpc caller context has expired")
  ok tt

abbrev pub same_key : Option String → Option String → Bool
same_key (some expected) (some actual) = str_eq expected actual
same_key none none = true
same_key (some expected) none = false
same_key none (some actual) = false

unfoldable pub validate_metadata_idempotency :
    SignedRpcCallerContextPayload → Option String → Result (Unit {0})
validate_metadata_idempotency payload metadata_idempotency_key =
    ensure (same_key payload.idempotency_key metadata_idempotency_key)
      (validation "rpc caller context idempotency key does not match request metadata")

unfoldable pub verified_of : SignedRpcCallerContextPayload → VerifiedRpcCallerContext
verified_of payload = record {
  issuer_service_id = payload.issuer_service_id;
  audience_service_id = payload.audience_service_id;
  tenant_id = payload.tenant_id;
  organization_id = payload.organization_id;
  actor_id = payload.actor_id;
  actor_kind = payload.actor_kind;
  session_id = payload.session_id;
  request_id = payload.request_id;
  trace_id = payload.trace_id;
  idempotency_key = payload.idempotency_key;
  issued_at_unix_seconds = payload.issued_at_unix_seconds;
  expires_at_unix_seconds = payload.expires_at_unix_seconds;
  nonce = payload.nonce;
}

unfoldable pub verify :
    Codec
    → Json
    → RpcCallerContextVerifier
    → SignedRpcCallerContext
    → VerifiedRpcServiceIdentity
    → Option String
    → SystemTime
    → Result VerifiedRpcCallerContext
verify codec json verifier signed peer_identity metadata_idempotency_key now = do
  ensure
      (not (
        ltb max_context_metadata_bytes (byte_len signed.encoded_context)
        || ltb max_context_metadata_bytes (byte_len signed.signature)))
      (validation "rpc caller context metadata exceeds maximum size")
  decoded ←
      ok_or (codec.base64url_decode signed.encoded_context)
        (validation "rpc caller context is not valid base64url")
  payload ← ok_or (json.from_slice decoded) (validation "rpc caller context has an invalid schema")
  validate_payload payload verifier.max_ttl
  ensure (str_eq payload.audience_service_id verifier.audience_service_id)
      (validation "rpc caller context is issued for a different audience service")
  ensure (str_eq payload.issuer_service_id peer_identity.service_id)
      (validation "rpc caller context issuer does not match the mTLS peer identity")
  signing_key ←
      ok_or (lookup payload.issuer_service_id verifier.issuer_keys)
        (validation "rpc caller context issuer is not trusted for this listener")
  signature ←
      ok_or (codec.base64url_decode signed.signature)
        (validation "rpc caller context signature is not valid base64url")
  ensure
      (codec.verify_hmac_sha256_base64url (signing_input signed.encoded_context) signing_key.bytes
        signature)
      (validation "rpc caller context signature is invalid")
  validate_time_window payload now verifier.max_clock_skew
  validate_metadata_idempotency payload metadata_idempotency_key
  ok (verified_of payload)
