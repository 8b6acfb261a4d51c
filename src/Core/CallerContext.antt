-- ===== src/Core/CallerContext.antt =====
-- crates/sdkwork-rpc-core/src/caller_context.rs: the caller context, its builder, its signing key and
-- the payload that travels. Signer and verifier are children.
pub mod Signer
pub mod Verifier
pub mod RoundTrip
pub mod Payload
pub mod Builder
pub mod Soundness
pub mod Completeness
pub mod Sealing
pub mod Lifetime
use Prim.Native.String.{String, ◌++◌}
use sdkwork_rpc_framework.Prelude.{
  ℕ, ◌≡◌, ◌⊎◌, inr, Bool, true, false, not, ◌&&◌, Option, none, some, List, length, is_some, ◌==◌,
  if◌then◌else◌,
}
use sdkwork_rpc_framework.Prelude.Rust.{Duration, from_secs}
use sdkwork_rpc_framework.Prelude.Int.{ℤ, in_i64}
use sdkwork_rpc_framework.External.{Codec}
use sdkwork_rpc_framework.Core.Error.{
  Result, ok, err, validation, configuration, ◌>>=◌, ◌>>◌, ensure, ok_or,
}
use sdkwork_rpc_framework.Core.Identifier.{validate_identifier}

abbrev pub caller_context_signature_domain : String
caller_context_signature_domain = "sdkwork-rpc-caller-context/v1\\n"

abbrev pub caller_context_version : ℕ
caller_context_version = 1

abbrev pub max_caller_context_ttl : Duration
max_caller_context_ttl = from_secs 300

abbrev pub max_clock_skew : Duration
max_clock_skew = from_secs 30

abbrev pub max_context_metadata_bytes : ℕ
max_context_metadata_bytes = 4096

abbrev pub rpc_caller_context_metadata : String
rpc_caller_context_metadata = "x-sdkwork-rpc-caller-context"

abbrev pub rpc_caller_context_signature_metadata : String
rpc_caller_context_signature_metadata = "x-sdkwork-rpc-caller-signature"

abbrev pub rpc_service_identity_assertion_metadata : String
rpc_service_identity_assertion_metadata = "x-sdkwork-service"

pub data RpcCallerActorKind : Type 0 where
  user service : RpcCallerActorKind

pub record RpcCallerContext : Type 0 where
  pub tenant_id : String
  pub organization_id : String
  pub actor_id : String
  pub actor_kind : RpcCallerActorKind
  pub session_id : Option String
  pub request_id : String
  pub trace_id : Option String
  pub idempotency_key : Option String
  pub audience_service_id : String

-- The setters of the source replace one field each.
pub record RpcCallerContextBuilder : Type 0 where
  pub tenant_id : Option String
  pub organization_id : Option String
  pub actor_id : Option String
  pub actor_kind : Option RpcCallerActorKind
  pub session_id : Option String
  pub request_id : Option String
  pub trace_id : Option String
  pub idempotency_key : Option String
  pub audience_service_id : Option String

unfoldable pub validated_identifier : String → String → Result String
validated_identifier field value = do validate_identifier field value; ok value

unfoldable pub required_identifier : String → Option String → Result String
unfolding validated_identifier
required_identifier field value = do
  value ← ok_or value (validation (("caller context " ++ field) ++ " is required"))
  validated_identifier field value

unfoldable pub optional_identifier : String → Option String → Result (Option String)
unfolding validated_identifier
optional_identifier field none = ok none
optional_identifier field (some value) = do
  value ← validated_identifier field value
  ok (some value)

-- `matches!(actor_kind, User) && session_id.is_none()`.
abbrev pub lacks_session : RpcCallerActorKind → Option String → Bool
lacks_session user session_id = not (is_some session_id)
lacks_session service session_id = false

unfoldable pub build : RpcCallerContextBuilder → Result RpcCallerContext
unfolding required_identifier optional_identifier
build b = do
  tenant_id ← required_identifier "tenant_id" b.tenant_id
  organization_id ← required_identifier "organization_id" b.organization_id
  actor_id ← required_identifier "actor_id" b.actor_id
  actor_kind ← ok_or b.actor_kind (validation "caller context actor_kind is required")
  request_id ← required_identifier "request_id" b.request_id
  audience_service_id ← required_identifier "audience_service_id" b.audience_service_id
  session_id ← optional_identifier "session_id" b.session_id
  trace_id ← optional_identifier "trace_id" b.trace_id
  idempotency_key ← optional_identifier "idempotency_key" b.idempotency_key
  ensure (not (lacks_session actor_kind session_id))
      (validation "user caller context requires a session_id")
  ok (record {
    tenant_id = tenant_id;
    organization_id = organization_id;
    actor_id = actor_id;
    actor_kind = actor_kind;
    session_id = session_id;
    request_id = request_id;
    trace_id = trace_id;
    idempotency_key = idempotency_key;
    audience_service_id = audience_service_id;
  })

pub record RpcCallerContextSigningKey : Type 0 where
  pub bytes : List ℕ

unfoldable pub from_secret_bytes : List ℕ → Result RpcCallerContextSigningKey
from_secret_bytes bytes =
    if length bytes == 32
    then ok (record { bytes = bytes })
    else err (configuration "rpc caller context signing key must be exactly 32 bytes")

unfoldable pub from_base64url : Codec → String → Result RpcCallerContextSigningKey
unfolding from_secret_bytes
from_base64url codec encoded = do
  bytes ←
      ok_or (codec.base64url_decode encoded)
        (configuration "rpc caller context signing key must be unpadded base64url")
  from_secret_bytes bytes

pub record SignedRpcCallerContext : Type 0 where
  pub encoded_context : String
  pub signature : String

pub record VerifiedRpcCallerContext : Type 0 where
  pub issuer_service_id : String
  pub audience_service_id : String
  pub tenant_id : String
  pub organization_id : String
  pub actor_id : String
  pub actor_kind : RpcCallerActorKind
  pub session_id : Option String
  pub request_id : String
  pub trace_id : Option String
  pub idempotency_key : Option String
  pub issued_at_unix_seconds : ℤ
  pub expires_at_unix_seconds : ℤ
  pub nonce : String

pub record SignedRpcCallerContextPayload : Type 0 where
  pub version : ℕ
  pub issuer_service_id : String
  pub audience_service_id : String
  pub tenant_id : String
  pub organization_id : String
  pub actor_id : String
  pub actor_kind : RpcCallerActorKind
  pub session_id : Option String
  pub request_id : String
  pub trace_id : Option String
  pub idempotency_key : Option String
  pub issued_at_unix_seconds : ℤ
  pub expires_at_unix_seconds : ℤ
  pub nonce : String

-- serde_json at the payload's type: `to_vec`, with an error's text on the left, and
-- `from_slice(..).ok()`. What was written is read back, and the times that are read are `i64`s.
pub record Json : Type 0 where
  pub to_vec : SignedRpcCallerContextPayload → String ⊎ List ℕ
  pub from_slice : List ℕ → Option SignedRpcCallerContextPayload
  pub from_slice-to_vec :
      (payload : SignedRpcCallerContextPayload) (bytes : List ℕ)
      → to_vec payload ≡ inr bytes
      → from_slice bytes ≡ some payload
  pub from_slice-in_i64 :
      (payload : SignedRpcCallerContextPayload) (bytes : List ℕ)
      → from_slice bytes ≡ some payload
      → (in_i64 payload.issued_at_unix_seconds ≡ true)
        × (in_i64 payload.expires_at_unix_seconds ≡ true)

unfoldable pub signing_input : String → String
signing_input encoded_context = caller_context_signature_domain ++ encoded_context
