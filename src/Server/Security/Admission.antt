-- ===== src/Server/Security/Admission.antt =====
-- Whom the interceptor of crates/sdkwork-rpc-server/src/security.rs lets in: the mTLS identity of
-- Core.ServiceIdentity and the caller context of Core.CallerContext together.
use text.Mathlib.TextEquality.{eq_iff}
use sdkwork_rpc_framework.Prelude.{
  ℕ, String, ◌≡◌, refl, subst, Option, none, some, List, [], ◌∷◌, arith,
}
use sdkwork_rpc_framework.External.{Tonic, Codec, X509}
use sdkwork_rpc_framework.Core.Time.{SystemTime}
use sdkwork_rpc_framework.Core.ServiceIdentity.{
  VerifiedRpcServiceIdentity, verify_tls_peer_certificate_der,
}
use sdkwork_rpc_framework.Core.ServiceIdentity.Trust.{
  IsProven, verify_tls_peer_certificate_der-IsProven,
}
use sdkwork_rpc_framework.Core.CallerContext.{
  VerifiedRpcCallerContext, Json, rpc_service_identity_assertion_metadata,
}
use sdkwork_rpc_framework.Prelude.Checked.{passed, of_passed, passed_injective}
use sdkwork_rpc_framework.Server.Security.{
  RpcInternalServiceSecurity, Request, optional_metadata, map_identity_error, leaf_of,
  validate_optional_service_assertion, verify_optional_caller_context, injected, verify_and_inject,
}
use sdkwork_rpc_framework.Server.Security.Delegation.{
  IsOptionallyDelegated, verify_optional_caller_context-IsDelegated, map_identity_error-eq-passed,
}

module _ (tonic : Tonic) (codec : Codec) (json : Json) (x509 : X509) where
  open tonic use {MetadataMap, Status}

  -- A request that passed: what stood in it, and what was put into it.
  pub record IsAdmittedRequest (security : RpcInternalServiceSecurity) (now : SystemTime)
      (before after : Request tonic) : Type 0 where
    pub leaf : List ℕ
    pub chain : List (List ℕ)
    pub identity : VerifiedRpcServiceIdentity
    pub context : Option VerifiedRpcCallerContext
    pub certified : before.peer_certs ≡ some (leaf ∷ chain)
    pub proven : IsProven codec x509 security.service_identity_policy leaf identity
    pub consistent :
        (assertion : String)
        → optional_metadata tonic before.metadata rpc_service_identity_assertion_metadata
          ≡ passed (some assertion)
        → assertion ≡ identity.service_id
    pub caller :
        IsOptionallyDelegated tonic codec json security before.metadata identity now context
    pub injected_identity : after.service_identity ≡ some identity
    pub injected_context :
        after.caller_context ≡ injected tonic codec json context before.caller_context
    pub same_metadata : after.metadata ≡ before.metadata

  leaf_of-eq-passed :
      (certs : Option (List (List ℕ))) {leaf : List ℕ}
      → leaf_of tonic codec json certs ≡ passed leaf
      → (chain : List (List ℕ)) × (certs ≡ some (leaf ∷ chain))
  leaf_of-eq-passed none e = cc
  leaf_of-eq-passed (some []) e = cc
  leaf_of-eq-passed (some (l ∷ chain)) e = (chain, cc)

  assertion-consistent :
      (metadata : MetadataMap) (identity : VerifiedRpcServiceIdentity)
      → validate_optional_service_assertion tonic metadata identity ≡ passed tt
      → (assertion : String)
      → optional_metadata tonic metadata rpc_service_identity_assertion_metadata
        ≡ passed (some assertion)
      → assertion ≡ identity.service_id
  unfolding validate_optional_service_assertion
  assertion-consistent metadata identity e assertion sent =
      ground (arith, rw sent at e, eq_iff assertion identity.service_id)

  -- A request passes the interceptor only with a peer certificate that proves an allowed service,
  -- with no assertion of another service, and either with no caller context at all or with one that
  -- the configured verifier vouches for as issued by that very service; exactly the proven identity
  -- and context are injected.
  pub verify_and_inject-IsAdmittedRequest :
      (security : RpcInternalServiceSecurity) (now : SystemTime) (before after : Request tonic)
      → verify_and_inject tonic codec json x509 security now before ≡ passed after
      → IsAdmittedRequest security now before after
  unfolding verify_and_inject
  verify_and_inject-IsAdmittedRequest security now before after e =
      of_passed (leaf_of tonic codec json before.peer_certs) _ e λ leaf q0 e0.
        of_passed (map_identity_error tonic (verify_tls_peer_certificate_der codec x509 _ leaf)) _
          e0
          λ identity q1 e1.
            of_passed (validate_optional_service_assertion tonic before.metadata identity) _ e1
              λ asserted q2 e2.
                of_passed
                  (verify_optional_caller_context tonic codec json security before.metadata identity
                    now)
                  _ e2
                  λ context q3 e3.
                    let (chain, certified) = leaf_of-eq-passed before.peer_certs q0 in
                    subst (IsAdmittedRequest security now before) (passed_injective e3) (record {
                      leaf = leaf;
                      chain = chain;
                      identity = identity;
                      context = context;
                      certified = certified;
                      proven =
                          verify_tls_peer_certificate_der-IsProven codec x509
                            security.service_identity_policy leaf identity
                            (map_identity_error-eq-passed tonic codec json _ q1);
                      consistent = assertion-consistent before.metadata identity q2;
                      caller =
                          verify_optional_caller_context-IsDelegated tonic codec json security
                            before.metadata identity now context q3;
                      injected_identity = refl;
                      injected_context = refl;
                      same_metadata = refl;
                    })
