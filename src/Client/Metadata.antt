-- ===== src/Client/Metadata.antt =====
-- crates/sdkwork-rpc-client/src/metadata.rs: the metadata that a client puts on a call. A `&mut` map
-- comes back beside the result, so that an error shows what was inserted before it.
pub mod Credential
pub mod RoundTrip
pub mod Handled
use Prim.Native.String.{String, ◌++◌}
use text.Mathlib.Text.{◌==◌ as str_eq}
use sdkwork_rpc_framework.Prelude.{
  Bool, true, false, not, ◌||◌, ◌&&◌, Option, none, some, if◌then◌else◌, ltb, ◌==◌, is_some,
}
use sdkwork_rpc_framework.Prelude.Rust.{Duration, from_secs}
use sdkwork_rpc_framework.Prelude.Text.{trim, is_empty_text}
use sdkwork_rpc_framework.External.{Tonic, Codec, TextUtils, MetadataNames}
use sdkwork_rpc_framework.Core.Error.{
  Result, ok, err, validation, configuration, ◌>>=◌, ◌>>◌, ensure, ok_or,
}
use sdkwork_rpc_framework.Core.Time.{SystemTime}
use sdkwork_rpc_framework.Core.CallerContext.{
  RpcCallerContext, SignedRpcCallerContext, Json, rpc_caller_context_metadata,
  rpc_caller_context_signature_metadata,
}
use sdkwork_rpc_framework.Core.CallerContext.Signer.{RpcCallerContextSigner, sign_at}

pub record RpcCallMetadata : Type 0 where
  pub authorization : Option String
  pub access_token : Option String
  pub request_id : Option String
  pub traceparent : Option String
  pub idempotency_key : Option String
  pub request_hash : Option String

pub record RpcServiceCredential : Type 0 where
  pub signed_caller_context : SignedRpcCallerContext
  pub idempotency_key : Option String

pub record SignedRpcServiceCredentialProvider : Type 0 where
  pub signer : RpcCallerContextSigner
  pub ttl : Duration

unfoldable pub new : RpcCallerContextSigner → Duration → Result SignedRpcServiceCredentialProvider
new signer ttl =
    if ttl == 0 || ltb (from_secs 300) ttl
    then err (configuration "rpc service credential ttl must be between 1 second and 300 seconds")
    else ok (record { signer = signer; ttl = ttl })

-- `issue`, with the clock and the nonce of the signer's `sign`.
unfoldable pub issue :
    Codec
    → Json
    → SignedRpcServiceCredentialProvider
    → RpcCallerContext
    → SystemTime
    → String
    → Result RpcServiceCredential
issue codec json provider context now nonce = do
  signed ← sign_at codec json provider.signer context provider.ttl now nonce
  ok (record { signed_caller_context = signed; idempotency_key = context.idempotency_key })

module _ (utils : TextUtils) where
  -- `is_blank` of an absent text is true.
  abbrev has_text : Option String → Bool
  has_text none = false
  has_text (some text) = not (utils.is_blank text)

  unfoldable pub has_idempotency_key : RpcCallMetadata → Bool
  has_idempotency_key call = has_text call.idempotency_key

module _ (tonic : Tonic) where
  open tonic use {MetadataMap, MetadataValue, get, insert, to_str, value_of_str, is_key}

  abbrev insert_value : MetadataMap → String → Option MetadataValue → MetadataMap
  insert_value metadata key none = metadata
  insert_value metadata key (some value) =
      if is_key key then insert metadata key value else metadata

  unfoldable pub insert_optional : TextUtils → MetadataMap → String → Option String → MetadataMap
  insert_optional utils metadata key none = metadata
  insert_optional utils metadata key (some value) =
      if utils.is_blank value then metadata else insert_value metadata key (value_of_str value)

  -- `RpcCallMetadata::apply_to`.
  unfoldable pub apply_call :
      TextUtils → MetadataNames → RpcCallMetadata → MetadataMap → MetadataMap
  apply_call utils names call metadata =
      let m = insert_optional utils metadata names.authorization call.authorization in
      let m = insert_optional utils m names.access_token call.access_token in
      let m = insert_optional utils m names.request_id call.request_id in
      let m = insert_optional utils m names.traceparent call.traceparent in
      let m = insert_optional utils m names.idempotency_key call.idempotency_key in
      insert_optional utils m names.request_hash call.request_hash

  abbrev Applied : Type 0
  Applied = MetadataMap × Result (Unit {0})

  -- `?`, with the map as it stands.
  abbrev pub and_then : Applied → (MetadataMap → Applied) → Applied
  and_then (metadata, err error) next = (metadata, err error)
  and_then (metadata, ok done) next = next metadata

  abbrev pub insert_parsed : MetadataMap → String → Option MetadataValue → Applied
  insert_parsed metadata key none =
      (metadata, err (validation (("invalid RPC metadata value for `" ++ key) ++ "`")))
  insert_parsed metadata key (some value) = (insert metadata key value, ok tt)

  unfoldable pub insert_required : MetadataMap → String → String → Applied
  insert_required metadata key value =
      if is_empty_text (trim value)
      then (
        metadata,
        err (validation (("required RPC metadata `" ++ key) ++ "` must not be blank")),
      )
      else if not (is_key key)
      then (metadata, err (validation (("invalid RPC metadata key `" ++ key) ++ "`")))
      else insert_parsed metadata key (value_of_str value)

  -- `to_str`, mapped.
  abbrev pub text_of : Option String → Result (Option String)
  text_of none = err (validation "existing RPC idempotency metadata is not valid ASCII")
  text_of (some text) = ok (some text)

  abbrev pub existing : Option MetadataValue → Result (Option String)
  existing none = ok none
  existing (some value) = text_of (to_str value)

  abbrev pub mismatch : Result (Unit {0})
  mismatch =
      err (validation "existing RPC idempotency metadata does not match the signed caller context")

  abbrev pub matching : Option String → Option String → Result (Unit {0})
  matching (some expected) (some actual) = if str_eq expected actual then ok tt else mismatch
  matching (some expected) none = ok tt
  matching none none = ok tt
  matching none (some actual) = mismatch

  unfoldable pub validate_bound_idempotency_metadata :
      MetadataNames → MetadataMap → Option String → Result (Unit {0})
  validate_bound_idempotency_metadata names metadata expected = do
    actual ← existing (get metadata names.idempotency_key)
    matching expected actual

  abbrev pub insert_bound_key : MetadataNames → Option String → MetadataMap → Applied
  insert_bound_key names none metadata = (metadata, ok tt)
  insert_bound_key names (some key) metadata = insert_required metadata names.idempotency_key key

  -- `RpcServiceCredential::apply_to`.
  unfoldable pub apply_to : MetadataNames → RpcServiceCredential → MetadataMap → Applied
  apply_to names credential metadata =
      and_then
        (metadata, validate_bound_idempotency_metadata names metadata credential.idempotency_key)
        λ m.
          and_then
            (insert_required m rpc_caller_context_metadata
              credential.signed_caller_context.encoded_context)
            λ m.
              and_then
                (insert_required m rpc_caller_context_signature_metadata
                  credential.signed_caller_context.signature)
                (insert_bound_key names credential.idempotency_key)
