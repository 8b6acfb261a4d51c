-- ===== src/Tests/Admission.antt =====
-- A request of the orders service with its certificate and a signed caller context: the theorem on
-- crates/sdkwork-rpc-server/src/security.rs at that request.
use text.Mathlib.Text.{◌==◌ as str_eq}
use sdkwork_rpc_framework.Prelude.{◌≡◌, refl, none, some, [], ◌∷◌, if◌then◌else◌}
use sdkwork_rpc_framework.Prelude.Rust.{from_secs}
use sdkwork_rpc_framework.Prelude.Int.{pos}
use sdkwork_rpc_framework.Prelude.Text.{byte_len, strip_prefix, contains_char}
use sdkwork_rpc_framework.Prelude.Map.{lookup}
use sdkwork_rpc_framework.Core.Time.{unix_seconds}
use sdkwork_rpc_framework.Core.Identifier.{validate_identifier, all_bytes}
use sdkwork_rpc_framework.Core.ServiceIdentity.{
  contains, allows, spiffe_prefix, parse_spiffe_service_uri, spiffe_uris,
  verify_tls_peer_certificate_der,
}
use sdkwork_rpc_framework.Core.CallerContext.{signing_input}
use sdkwork_rpc_framework.Core.CallerContext.Signer.{payload_of}
use sdkwork_rpc_framework.Core.CallerContext.Verifier.{
  verify, verified_of, validate_payload, validate_time_window, validate_metadata_idempotency,
  validate_fields, validate_options,
}
use sdkwork_rpc_framework.Prelude.Checked.{passed}
use sdkwork_rpc_framework.Server.Security.{
  RpcInternalServiceSecurity, Request, optional_metadata, validate_optional_service_assertion,
  verify_supplied, verify_optional_caller_context, verify_and_inject,
}
use sdkwork_rpc_framework.Server.Security.Admission.{
  IsAdmittedRequest, verify_and_inject-IsAdmittedRequest,
}
use sdkwork_rpc_framework.Tests.Instances.{
  Metadata, numbered, lettered, encode, decode, same_numbers,
}
use sdkwork_rpc_framework.Tests.JsonSample.{only, read}
use sdkwork_rpc_framework.Tests.Caller.{verifier, signed, sample, json}
use sdkwork_rpc_framework.Tests.Identity.{policy, orders_x509, identity}

abbrev security : RpcInternalServiceSecurity
security = record { service_identity_policy = policy; caller_context_verifier = some verifier }

headers : Metadata
unfolding signed
headers k =
    if str_eq k "x-sdkwork-rpc-caller-context"
    then some signed.encoded_context
    else if str_eq k "x-sdkwork-rpc-caller-signature"
    then some signed.signature
    else if str_eq k "idempotency-key"
    then some "key-1"
    else none

before : Request numbered
before = record {
  metadata = headers;
  peer_certs = some ((2 ∷ []) ∷ []);
  service_identity = none;
  caller_context = none;
}

after : Request numbered
after = record before {
  service_identity = some identity;
  caller_context = some (verified_of sample);
}

let_in :
    verify_and_inject numbered lettered json orders_x509 security (pos (from_secs 1_080)) before
    ≡ passed after
unfolding verify_and_inject before after headers optional_metadata
    validate_optional_service_assertion verify_supplied verify_optional_caller_context
    verify_tls_peer_certificate_der lettered spiffe_uris strip_prefix contains contains_char
    parse_spiffe_service_uri spiffe_prefix validate_identifier byte_len all_bytes allows encode
    verify only unix_seconds payload_of sample signed signing_input read decode same_numbers
    verified_of validate_payload validate_time_window validate_metadata_idempotency validate_fields
    validate_options lookup json
let_in = refl

verify_and_inject-IsAdmittedRequest_example :
    IsAdmittedRequest numbered lettered json orders_x509 security
      (pos (from_secs 1_080))
      before
      after
verify_and_inject-IsAdmittedRequest_example =
    verify_and_inject-IsAdmittedRequest numbered lettered json orders_x509 security
      (pos (from_secs 1_080)) before after let_in
