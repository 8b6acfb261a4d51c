-- ===== src/Core/ServiceIdentity/Trust.antt =====
-- Whom crates/sdkwork-rpc-core/src/service_identity.rs lets in: the identity that a certificate proves,
-- and the set of services that a policy accepts.
use Prim.Native.String.{String, [], ◌∷◌, ◌++◌}
use text.Mathlib.Text.{◌==◌ as str_eq}
use text.Mathlib.TextEquality.{eq_iff, path_by_compare}
use sdkwork_rpc_framework.Prelude.{
  ℕ, ◌<◌, ◌≡◌, ◌↔◌, refl, ap, ◌∙◌, subst, ◌⊎◌, inl, inr, true, false, ◌||◌, some, List, arith,
  length,
}
use sdkwork_rpc_framework.Prelude.Text.{strip_prefix-append, strip_prefix-eq-some, contains_char}
use sdkwork_rpc_framework.External.{Codec, X509}
use sdkwork_rpc_framework.Core.Error.{ok, ok_or, of_bind, ensure-eq-ok, ok_or-eq-ok}
use sdkwork_rpc_framework.Core.Identifier.{
  IsIdentifier, is_identifier_byte, all_bytes, validate_identifier-IsIdentifier,
  IsIdentifier-validate_identifier,
}
use sdkwork_rpc_framework.Core.ServiceIdentity.{
  VerifiedRpcServiceIdentity, RpcServiceIdentityPolicy, collect_set, set_insert, contains, allows,
  new, spiffe_prefix, parse_spiffe_service_uri, spiffe_uris, verify_tls_peer_certificate_der,
  only_uri, of_sum, validate_all,
}

-- An identifier has none of the characters that end a URI path segment.
not-contains_char :
    (n : ℕ) (s : String)
    → is_identifier_byte n ≡ false
    → all_bytes is_identifier_byte s ≡ true
    → contains_char n s ≡ false
unfolding contains_char all_bytes
not-contains_char n [] h a = refl
not-contains_char n (c ∷ s) h a = ground (arith, not-contains_char n s h)

-- A SPIFFE URI is accepted, with the service that it names, exactly when it is the listener's
-- prefix followed by an identifier.
pub parse_spiffe_service_uri_iff :
    (uri trust_domain service_id : String)
    → (parse_spiffe_service_uri uri trust_domain ≡ ok service_id)
      ↔ ((uri ≡ spiffe_prefix trust_domain ++ service_id) × IsIdentifier service_id)
unfolding parse_spiffe_service_uri
parse_spiffe_service_uri_iff uri trust_domain service_id = (
  λ e. ground (
    arith,
    strip_prefix-eq-some (spiffe_prefix trust_domain) uri service_id,
    validate_identifier-IsIdentifier "SPIFFE service_id" service_id,
  ),
  λ (shape, named). rw shape (
      ground (
        arith,
        strip_prefix-append (spiffe_prefix trust_domain) service_id,
        not-contains_char b'/' service_id refl named.allowed,
        not-contains_char b'?' service_id refl named.allowed,
        not-contains_char b'#' service_id refl named.allowed,
        IsIdentifier-validate_identifier "SPIFFE service_id" service_id named,
      )),
)

contains-set_insert :
    (k x : String) (s : List String) → contains (set_insert k s) x ≡ (str_eq x k || contains s x)
unfolding contains set_insert
contains-set_insert k x List.[] = refl
contains-set_insert k x (List.◌∷◌ j s) =
    ground (arith, contains-set_insert k x s, path_by_compare k j, eq_iff x k, eq_iff x j)

contains-collect_set :
    (x : String) (ids : List String) → contains (collect_set ids) x ≡ contains ids x
unfolding contains collect_set
contains-collect_set x List.[] = refl
contains-collect_set x (List.◌∷◌ k ids) =
    contains-set_insert k x (collect_set ids) ∙ ap (◌||◌ (str_eq x k)) (contains-collect_set x ids)

validate_all-contains :
    (ids : List String) (x : String)
    → validate_all ids ≡ ok tt
    → contains ids x ≡ true
    → IsIdentifier x
unfolding validate_all contains
validate_all-contains List.[] x e c = cc
validate_all-contains (List.◌∷◌ k ids) x e c = ground (
  arith,
  eq_iff x k,
  validate_all-contains ids x,
  validate_identifier-IsIdentifier "service_id" k,
)

new-eq-ok :
    (trust_domain : String) (ids : List String) (policy : RpcServiceIdentityPolicy)
    → new trust_domain ids ≡ ok policy
    → (policy ≡ record { trust_domain = trust_domain; allowed_service_ids = collect_set ids })
      × (0 < length (collect_set ids))
      × (validate_all (collect_set ids) ≡ ok tt)
unfolding new
new-eq-ok trust_domain ids policy e = ground arith

-- A policy that `new` accepts names the given trust domain, allows exactly the services that were
-- listed, at least one, and each of them is an identifier.
new-allows :
    (trust_domain : String) (ids : List String) (policy : RpcServiceIdentityPolicy)
    → new trust_domain ids ≡ ok policy
    → (policy.trust_domain ≡ trust_domain)
      × (0 < length policy.allowed_service_ids)
      × ((x : String) → allows policy x ≡ contains ids x)
      × ((x : String) → allows policy x ≡ true → IsIdentifier x)
unfolding allows
new-allows trust_domain ids policy e =
    let (same, nonempty, valid) = new-eq-ok trust_domain ids policy e in
    rw same (
      refl,
      nonempty,
      λ x. contains-collect_set x ids,
      λ x c. validate_all-contains (collect_set ids) x valid c,
    )

module _ (codec : Codec) (x509 : X509) where
  open x509 use {Certificate, GeneralName, from_der, subject_alternative_name}

  -- What an accepted certificate proves of the identity that is derived from it.
  pub record IsProven (policy : RpcServiceIdentityPolicy) (der : List ℕ)
      (identity : VerifiedRpcServiceIdentity) : Type 0 where
    pub names : List GeneralName
    pub certificate : Certificate
    pub parsed : from_der der ≡ inr certificate
    pub named : subject_alternative_name certificate ≡ inr (some names)
    pub only : spiffe_uris codec x509 names ≡ List.◌∷◌ identity.spiffe_uri List.[]
    pub shape : identity.spiffe_uri ≡ spiffe_prefix policy.trust_domain ++ identity.service_id
    pub identifier : IsIdentifier identity.service_id
    pub allowed : allows policy identity.service_id ≡ true
    pub domain : identity.trust_domain ≡ policy.trust_domain
    pub digest : identity.certificate_sha256 ≡ codec.sha256_hash der

  of_sum-eq-ok :
      {A : Type 0} (context : String) (s : String ⊎ A) {a : A} → of_sum context s ≡ ok a → s ≡ inr a
  of_sum-eq-ok context (inl text) h = cc
  of_sum-eq-ok context (inr x) h = cc

  only_uri-eq-ok :
      (uris : List String) {u : String} → only_uri uris ≡ ok u → uris ≡ List.◌∷◌ u List.[]
  only_uri-eq-ok List.[] h = cc
  only_uri-eq-ok (List.◌∷◌ v List.[]) h = cc
  only_uri-eq-ok (List.◌∷◌ v (List.◌∷◌ w vs)) h = cc

  -- A certificate is accepted only if its one SPIFFE URI is the policy's prefix followed by an
  -- allowed service id; the identity holds that id, that URI and the certificate's digest.
  pub verify_tls_peer_certificate_der-IsProven :
      (policy : RpcServiceIdentityPolicy) (der : List ℕ) (identity : VerifiedRpcServiceIdentity)
      → verify_tls_peer_certificate_der codec x509 policy der ≡ ok identity
      → IsProven policy der identity
  unfolding verify_tls_peer_certificate_der
  verify_tls_peer_certificate_der-IsProven policy der identity e =
      of_bind (of_sum _ (from_der der)) _ e λ certificate q0 e0.
        of_bind (of_sum _ (subject_alternative_name certificate)) _ e0 λ extension q1 e1.
          of_bind (ok_or extension _) _ e1 λ names q2 e2.
            of_bind (only_uri (spiffe_uris codec x509 names)) _ e2 λ spiffe_uri q3 e3.
              of_bind (parse_spiffe_service_uri spiffe_uri policy.trust_domain) _ e3 λ id q4 e4.
                let (allowed, last) = ensure-eq-ok (allows policy id) _ _ e4 in
                let (shape, named) =
                  (parse_spiffe_service_uri_iff spiffe_uri policy.trust_domain id).0 q4 in
                record {
                  names = names;
                  certificate = certificate;
                  parsed = of_sum-eq-ok _ _ q0;
                  named = of_sum-eq-ok _ _ q1 ∙ ap inr (ok_or-eq-ok extension _ q2);
                  only = only_uri-eq-ok _ q3 ∙ ap (λ u. List.◌∷◌ u List.[]) (ground arith);
                  shape = ground arith;
                  identifier = subst IsIdentifier (ground arith) named;
                  allowed = ground arith;
                  domain = ground arith;
                  digest = ground arith;
                }
