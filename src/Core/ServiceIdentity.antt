-- ===== src/Core/ServiceIdentity.antt =====
-- crates/sdkwork-rpc-core/src/service_identity.rs: which peers a listener accepts, and the identity
-- that a certificate proves. A `BTreeSet` is a list in the order of its texts.
pub mod Trust
use Prim.Native.Nat.{Ordering}
use Prim.Native.String.{String, ◌++◌, compare}
use text.Mathlib.Text.{◌==◌ as str_eq}
use sdkwork_rpc_framework.Prelude.{
  ℕ, ◌⊎◌, inl, inr, Bool, true, false, not, ◌||◌, Option, none, some, List, [], ◌∷◌, length, any,
  if◌then◌else◌, ◌==◌,
}
use sdkwork_rpc_framework.Prelude.Text.{strip_prefix, starts_with, contains_char, decimal}
use sdkwork_rpc_framework.External.{Codec, X509}
use sdkwork_rpc_framework.Core.Error.{
  Result, ok, err, validation, configuration, ◌>>=◌, ◌>>◌, ensure, ok_or,
}
use sdkwork_rpc_framework.Core.Identifier.{validate_identifier, validate_trust_domain}

abbrev pub spiffe_service_path_prefix : String
spiffe_service_path_prefix = "/sdkwork/service/"

pub record VerifiedRpcServiceIdentity : Type 0 where
  pub service_id : String
  pub trust_domain : String
  pub spiffe_uri : String
  pub certificate_sha256 : String

pub record RpcServiceIdentityPolicy : Type 0 where
  pub trust_domain : String
  pub allowed_service_ids : List String

unfoldable pub set_insert : String → List String → List String
set_insert k [] = k ∷ []
set_insert k (j ∷ s) = elim (compare k j) [
  | Ordering.lt ↦ k ∷ j ∷ s
  | Ordering.eq ↦ j ∷ s
  | Ordering.gt ↦ j ∷ set_insert k s
]

unfoldable pub collect_set : List String → List String
unfolding set_insert
collect_set [] = []
collect_set (k ∷ ks) = set_insert k (collect_set ks)

validate_all : List String → Result (Unit {0})
validate_all [] = ok tt
validate_all (s ∷ rest) = validate_identifier "service_id" s >> validate_all rest

unfoldable pub contains : List String → String → Bool
contains s k = any (str_eq k) s

-- `RpcServiceIdentityPolicy::new`.
unfoldable pub new : String → List String → Result RpcServiceIdentityPolicy
unfolding collect_set validate_all
new trust_domain allowed_service_ids = do
  validate_trust_domain trust_domain
  let allowed = collect_set allowed_service_ids
  ensure (not (length allowed == 0))
      (configuration "rpc service identity policy requires at least one allowed service id")
  validate_all allowed
  ok (record { trust_domain = trust_domain; allowed_service_ids = allowed })

unfoldable pub allows : RpcServiceIdentityPolicy → String → Bool
unfolding contains
allows policy service_id = contains policy.allowed_service_ids service_id

unfoldable pub spiffe_prefix : String → String
spiffe_prefix trust_domain = ("spiffe://" ++ trust_domain) ++ spiffe_service_path_prefix

unfoldable pub parse_spiffe_service_uri : String → String → Result String
parse_spiffe_service_uri uri trust_domain = do
  let prefix = spiffe_prefix trust_domain
  service_id ←
      ok_or (strip_prefix prefix uri)
        (validation (("mTLS SPIFFE URI must match `" ++ prefix) ++ "<service-id>`"))
  ensure
      (not (
        contains_char b'/' service_id
        || contains_char b'?' service_id
        || contains_char b'#' service_id))
      (validation "mTLS SPIFFE service identity must not include path, query, or fragment suffixes")
  validate_identifier "SPIFFE service_id" service_id
  ok service_id

-- The value of a step that fails with a text.
abbrev of_sum : {A : Type 0} → String → String ⊎ A → Result A
of_sum context (inl e) = err (validation (context ++ e))
of_sum context (inr a) = ok a

-- The count is checked, so the list has a first entry.
abbrev only_uri : List String → Result String
only_uri (uri ∷ []) = ok uri
only_uri uris = err (
    validation (
      "mTLS peer certificate must include exactly one SPIFFE URI SAN, found "
      ++ decimal (length uris)))

module _ (codec : Codec) (x509 : X509) where
  open x509 use {Certificate, GeneralName, from_der, subject_alternative_name, uri}

  unfoldable pub spiffe_uris : List GeneralName → List String
  spiffe_uris [] = []
  spiffe_uris (name ∷ names) = elim (uri name) [
    | none ↦ spiffe_uris names
    | some text ↦
        if starts_with text "spiffe://" then text ∷ spiffe_uris names else spiffe_uris names
  ]

  unfoldable pub verify_tls_peer_certificate_der :
      RpcServiceIdentityPolicy → List ℕ → Result VerifiedRpcServiceIdentity
  verify_tls_peer_certificate_der policy certificate_der = do
    certificate ← of_sum "mTLS peer certificate is not valid DER: " (from_der certificate_der)
    extension ←
        of_sum "mTLS peer certificate SAN is invalid: " (subject_alternative_name certificate)
    names ← ok_or extension (validation "mTLS peer certificate must include one SPIFFE URI SAN")
    spiffe_uri ← only_uri (spiffe_uris names)
    service_id ← parse_spiffe_service_uri spiffe_uri policy.trust_domain
    ensure (allows policy service_id)
        (validation (("mTLS peer service identity `" ++ service_id) ++ "` is not allowed"))
    ok (record {
      service_id = service_id;
      trust_domain = policy.trust_domain;
      spiffe_uri = spiffe_uri;
      certificate_sha256 = codec.sha256_hash certificate_der;
    })
