-- ===== src/Tests/Identity.antt =====
-- The SPIFFE identity of an orders service: the theorems on
-- crates/sdkwork-rpc-core/src/service_identity.rs at one policy and one certificate.
use sdkwork_rpc_framework.Prelude.{String, ◌≡◌, ◌↔◌, refl, inr, some, [], ◌∷◌}
use Prim.Native.String.{◌++◌}
use sdkwork_rpc_framework.Prelude.Text.{byte_len, strip_prefix, contains_char}
use sdkwork_rpc_framework.External.{X509}
use sdkwork_rpc_framework.Core.Error.{ok}
use sdkwork_rpc_framework.Core.Identifier.{
  IsIdentifier, validate_identifier, validate_trust_domain, all_bytes,
}
use sdkwork_rpc_framework.Core.ServiceIdentity.{
  VerifiedRpcServiceIdentity, RpcServiceIdentityPolicy, contains, allows, new, spiffe_prefix,
  parse_spiffe_service_uri, spiffe_uris, verify_tls_peer_certificate_der,
}
use sdkwork_rpc_framework.Core.ServiceIdentity.Trust.{
  parse_spiffe_service_uri_iff, IsProven, verify_tls_peer_certificate_der-IsProven,
}
use sdkwork_rpc_framework.Tests.Instances.{lettered, encode}

abbrev pub orders_uri : String
orders_uri = "spiffe://example.org/sdkwork/service/orders"

abbrev pub policy : RpcServiceIdentityPolicy
policy = record { trust_domain = "example.org"; allowed_service_ids = "orders" ∷ "users" ∷ [] }

made : new "example.org" ("orders" ∷ "users" ∷ "orders" ∷ []) ≡ ok policy
unfolding new validate_trust_domain all_bytes validate_identifier byte_len
made = refl

-- A certificate that names one service.
abbrev pub orders_x509 : X509
orders_x509 = record {
  Certificate = Unit;
  GeneralName = String;
  from_der = λ der. inr tt;
  subject_alternative_name = λ certificate. inr (some (orders_uri ∷ []));
  uri = some;
}

abbrev pub identity : VerifiedRpcServiceIdentity
identity = record {
  service_id = "orders";
  trust_domain = "example.org";
  spiffe_uri = orders_uri;
  certificate_sha256 = "aab";
}

verified : verify_tls_peer_certificate_der lettered orders_x509 policy (2 ∷ []) ≡ ok identity
unfolding verify_tls_peer_certificate_der lettered spiffe_uris strip_prefix contains contains_char
    parse_spiffe_service_uri spiffe_prefix validate_identifier byte_len all_bytes allows encode
verified = refl

parse_spiffe_service_uri_iff_example :
    (parse_spiffe_service_uri orders_uri "example.org" ≡ ok "orders")
    ↔ ((orders_uri ≡ spiffe_prefix "example.org" ++ "orders") × IsIdentifier "orders")
parse_spiffe_service_uri_iff_example =
    parse_spiffe_service_uri_iff orders_uri "example.org" "orders"

verify_tls_peer_certificate_der-IsProven_example :
    IsProven lettered orders_x509 policy (2 ∷ []) identity
verify_tls_peer_certificate_der-IsProven_example =
    verify_tls_peer_certificate_der-IsProven lettered orders_x509 policy (2 ∷ []) identity verified
