-- ===== src/Tests/Handled.antt =====
-- A call that carries a credential, at a server: the theorem on crates/sdkwork-rpc-client/src/metadata.rs
-- and crates/sdkwork-rpc-server/src/security.rs together.
use sdkwork_rpc_framework.Prelude.{◌≡◌, refl, none, some, [], ◌∷◌, arith}
use sdkwork_rpc_framework.Prelude.Rust.{from_secs}
use sdkwork_rpc_framework.Prelude.Int.{pos}
use sdkwork_rpc_framework.Core.Error.{ok}
use sdkwork_rpc_framework.Core.Identifier.{
  validate_identifier, all_bytes, validate_identifier-IsIdentifier,
}
use sdkwork_rpc_framework.Prelude.Text.{contains_char, strip_prefix, byte_len}
use sdkwork_rpc_framework.Prelude.Map.{lookup}
use sdkwork_rpc_framework.Core.CallerContext.Signer.{payload_of}
use sdkwork_rpc_framework.Core.ServiceIdentity.{
  allows, spiffe_prefix, parse_spiffe_service_uri, spiffe_uris, verify_tls_peer_certificate_der,
}
use sdkwork_rpc_framework.Core.CallerContext.Verifier.{verified_of}
use sdkwork_rpc_framework.Prelude.Checked.{passed}
use sdkwork_rpc_framework.Server.Security.{
  validate_optional_service_assertion, Request, require_verified_rpc_service_identity,
  require_verified_rpc_caller_context,
}
use sdkwork_rpc_framework.Server.Security.Interceptor.{interceptor, call}
use sdkwork_rpc_framework.Client.Metadata.Handled.{call-apply_to-issue}
use sdkwork_rpc_framework.Tests.Instances.{numbered, lettered}
use sdkwork_rpc_framework.Tests.Caller.{
  verifier, sample, sample_context, json, signed, sample_context-IsWellFormed,
}
use sdkwork_rpc_framework.Tests.Identity.{policy, orders_x509, identity}
use sdkwork_rpc_framework.Tests.Outbound.{
  names, security, provider, credential, nothing, after, issued_sample, applied_sample,
}

abbrev request : Request numbered
request = record {
  metadata = after;
  peer_certs = some ((2 ∷ []) ∷ []);
  service_identity = none;
  caller_context = none;
}

proven : verify_tls_peer_certificate_der lettered orders_x509 policy (2 ∷ []) ≡ ok identity
unfolding verify_tls_peer_certificate_der spiffe_uris strip_prefix parse_spiffe_service_uri
    spiffe_prefix contains_char validate_identifier byte_len all_bytes allows lettered
proven = refl

call-apply_to-issue_example :
    (handled : Request numbered) × (call numbered lettered json orders_x509
        (pos (from_secs 1_080))
        (interceptor security)
        request
      ≡ passed handled)
    × (require_verified_rpc_service_identity numbered handled ≡ passed identity)
    × (require_verified_rpc_caller_context numbered handled ≡ passed (verified_of sample))
unfolding validate_identifier byte_len all_bytes lookup signed sample payload_of
    validate_optional_service_assertion
call-apply_to-issue_example =
    call-apply_to-issue numbered lettered json names orders_x509 security verifier identity provider
      sample_context "nonce-1" (from_secs 1_000) (from_secs 1_080) credential nothing request
      (2 ∷ []) [] issued_sample applied_sample refl proven refl refl refl
      sample_context-IsWellFormed (validate_identifier-IsIdentifier "" "orders" refl)
      (validate_identifier-IsIdentifier "" "nonce-1" refl) (omega arith) (omega arith) refl refl
      refl (omega arith) (omega arith) (omega arith) (omega arith) (omega arith) (omega arith)
