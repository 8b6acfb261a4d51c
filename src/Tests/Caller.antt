-- ===== src/Tests/Caller.antt =====
-- A caller context of one tenant, signed by an orders service and verified by a billing service:
-- the theorems on crates/sdkwork-rpc-core/src/caller_context.rs at that context.
use Prim.Native.String.{String}
use sdkwork_rpc_framework.Prelude.{◌≡◌, ◌≢◌, ◌↔◌, refl, none, some, [], ◌∷◌, arith, replicate}
use sdkwork_rpc_framework.Prelude.Rust.{from_secs, from_millis}
use sdkwork_rpc_framework.Prelude.Int.{pos}
use sdkwork_rpc_framework.Prelude.Text.{byte_len}
use sdkwork_rpc_framework.Core.Error.{Result, ok}
use sdkwork_rpc_framework.Core.Time.{unix_seconds}
use sdkwork_rpc_framework.Core.Identifier.{
  all_bytes, validate_identifier, validate_identifier-IsIdentifier,
}
use sdkwork_rpc_framework.Core.ServiceIdentity.{VerifiedRpcServiceIdentity}
use sdkwork_rpc_framework.Core.CallerContext.{
  user, VerifiedRpcCallerContext, RpcCallerContext, RpcCallerContextSigningKey,
  SignedRpcCallerContext, SignedRpcCallerContextPayload, Json, build, signing_input,
}
use sdkwork_rpc_framework.Core.CallerContext.Signer.{
  RpcCallerContextSigner, sign_at, payload_of, seal,
}
use sdkwork_rpc_framework.Core.CallerContext.Verifier.{
  RpcCallerContextVerifier, verify, verified_of,
}
use sdkwork_rpc_framework.Core.CallerContext.Payload.{absent, present}
use sdkwork_rpc_framework.Core.CallerContext.Builder.{IsWellFormed, builder_of, build_iff}
use sdkwork_rpc_framework.Core.CallerContext.Soundness.{IsVouched}
use sdkwork_rpc_framework.Core.CallerContext.Completeness.{verify_iff}
use sdkwork_rpc_framework.Core.CallerContext.Lifetime.{verify-subsecond}
use sdkwork_rpc_framework.Prelude.Map.{lookup}
use sdkwork_rpc_framework.Core.CallerContext.RoundTrip.{verify-sign_at}
use sdkwork_rpc_framework.Tests.JsonSample.{only, write, same, same_kind, same_int}
use sdkwork_rpc_framework.Tests.Instances.{lettered, encode}

abbrev pub key : RpcCallerContextSigningKey
key = record { bytes = replicate 32 7 }

abbrev pub sample_context : RpcCallerContext
sample_context = record {
  tenant_id = "tenant-1";
  organization_id = "org-1";
  actor_id = "actor-1";
  actor_kind = user;
  session_id = some "session-1";
  request_id = "request-1";
  trace_id = none;
  idempotency_key = some "key-1";
  audience_service_id = "billing";
}

abbrev pub signer : RpcCallerContextSigner
signer = record { issuer_service_id = "orders"; signing_key = key; max_ttl = from_secs 300 }

abbrev pub verifier : RpcCallerContextVerifier
verifier = record {
  audience_service_id = "billing";
  issuer_keys = ("orders", key) ∷ [];
  max_ttl = from_secs 300;
  max_clock_skew = from_secs 30;
}

abbrev pub peer : VerifiedRpcServiceIdentity
peer = record {
  service_id = "orders";
  trust_domain = "example.org";
  spiffe_uri = "spiffe://example.org/sdkwork/service/orders";
  certificate_sha256 = "";
}

-- Sixty seconds from second 1000 on.
unfoldable pub sample : SignedRpcCallerContextPayload
unfolding payload_of
sample = payload_of signer sample_context (pos 1_000) (pos 1_060) "nonce-1"

unfoldable pub signed : SignedRpcCallerContext
unfolding encode
signed = record { encoded_context = "ab"; signature = encode (33 ∷ replicate 32 7) }

pub sample_context-IsWellFormed : IsWellFormed sample_context
unfolding validate_identifier byte_len all_bytes
sample_context-IsWellFormed =
    let named = λ (value : String) (h : validate_identifier "" value ≡ ok tt).
      validate_identifier-IsIdentifier "" value h in
    record {
      required = (
        named "tenant-1" refl,
        (
          named "org-1" refl,
          (named "actor-1" refl, (named "request-1" refl, (named "billing" refl, tt))),
        ),
      );
      with_session = refl;
      optional = (present (named "session-1" refl), (absent, (present (named "key-1" refl), tt)));
    }

abbrev brief : SignedRpcCallerContextPayload
brief = payload_of signer sample_context (pos 1_000) (pos 1_000) "nonce-1"

unfoldable pub json : Json
unfolding sample payload_of
json = only sample refl refl

-- The serializer that knows the payload of a half-second lifetime.
brief_json : Json
unfolding payload_of
brief_json = only brief refl refl

pub sign_at_sample :
    sign_at lettered json signer sample_context (from_secs 60) (pos (from_secs 1_000)) "nonce-1"
    ≡ ok signed
unfolding sign_at only lettered unix_seconds seal payload_of sample signed signing_input encode
    write same same_kind same_int json
sign_at_sample = refl

sign_at_brief :
    sign_at lettered brief_json signer sample_context
      (from_millis 500)
      (pos (from_secs 1_000))
      "nonce-1"
    ≡ ok signed
unfolding sign_at only lettered unix_seconds seal payload_of signed signing_input encode write same
    same_kind same_int brief_json
sign_at_brief = refl

accepted : Result VerifiedRpcCallerContext
unfolding verified_of payload_of
accepted = ok (verified_of sample)

verify-sign_at_example :
    verify lettered json verifier signed peer (some "key-1") (pos (from_secs 1_080)) ≡ accepted
unfolding validate_identifier byte_len all_bytes lookup signed accepted sample
verify-sign_at_example =
    verify-sign_at lettered json signer verifier peer sample_context (from_secs 60) "nonce-1"
      (from_secs 1_000) (from_secs 1_080) signed sign_at_sample sample_context-IsWellFormed
      (validate_identifier-IsIdentifier "" "orders" refl)
      (validate_identifier-IsIdentifier "" "nonce-1" refl) (omega arith) (omega arith) refl refl
      refl (omega arith) (omega arith) (omega arith) (omega arith) (omega arith) (omega arith)

verify_iff_example :
    (verify lettered json verifier signed peer (some "key-1") (pos (from_secs 1_080)) ≡ accepted)
    ↔ IsVouched lettered json verifier signed peer
        (some "key-1")
        (pos (from_secs 1_080))
        (verified_of sample)
unfolding accepted
verify_iff_example =
    verify_iff lettered json verifier signed peer (some "key-1") (pos (from_secs 1_080))
      (verified_of sample) (omega arith)

verify-subsecond_example :
    verify lettered brief_json verifier signed peer (some "key-1") (pos (from_secs 1_000))
    ≢ ok (verified_of brief)
verify-subsecond_example =
    verify-subsecond lettered brief_json signer verifier peer sample_context (from_millis 500)
      "nonce-1" (from_secs 1_000) (some "key-1") (pos (from_secs 1_000)) signed (verified_of brief)
      sign_at_brief (omega arith)

build_iff_example :
    (build (builder_of sample_context) ≡ ok sample_context)
    ↔ ((builder_of sample_context ≡ builder_of sample_context) × IsWellFormed sample_context)
build_iff_example = build_iff (builder_of sample_context) sample_context
