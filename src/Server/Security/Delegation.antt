-- ===== src/Server/Security/Delegation.antt =====
-- The optional caller context of a request, as crates/sdkwork-rpc-server/src/security.rs checks it.
use sdkwork_rpc_framework.Prelude.{String, ◌≡◌, subst, Option, none, some}
use sdkwork_rpc_framework.External.{Tonic, Codec}
use sdkwork_rpc_framework.Core.Error.{Result, ok, err}
use sdkwork_rpc_framework.Core.Time.{SystemTime}
use sdkwork_rpc_framework.Core.ServiceIdentity.{VerifiedRpcServiceIdentity}
use sdkwork_rpc_framework.Core.CallerContext.{
  SignedRpcCallerContext, VerifiedRpcCallerContext, Json, rpc_caller_context_metadata,
  rpc_caller_context_signature_metadata,
}
use sdkwork_rpc_framework.Core.CallerContext.Verifier.{RpcCallerContextVerifier, verify}
use sdkwork_rpc_framework.Core.CallerContext.Soundness.{IsVouched, verify-IsVouched}
use sdkwork_rpc_framework.Prelude.Checked.{passed, of_passed, passed_injective}
use sdkwork_rpc_framework.Server.Security.{
  RpcInternalServiceSecurity, optional_metadata, map_identity_error, or_refuse, verify_supplied,
  supplied, verify_optional_caller_context,
}

module _ (tonic : Tonic) (codec : Codec) (json : Json) where
  open tonic use {MetadataMap, Status}

  -- A caller context that the metadata carries, and that the configured verifier vouches for.
  pub record IsDelegated (security : RpcInternalServiceSecurity) (metadata : MetadataMap)
      (identity : VerifiedRpcServiceIdentity) (now : SystemTime)
      (context : VerifiedRpcCallerContext) : Type 0 where
    pub verifier : RpcCallerContextVerifier
    pub signed : SignedRpcCallerContext
    pub key : Option String
    pub configured : security.caller_context_verifier ≡ some verifier
    pub context_sent :
        optional_metadata tonic metadata rpc_caller_context_metadata
        ≡ passed (some signed.encoded_context)
    pub signature_sent :
        optional_metadata tonic metadata rpc_caller_context_signature_metadata
        ≡ passed (some signed.signature)
    pub key_sent : optional_metadata tonic metadata "idempotency-key" ≡ passed key
    pub vouched : IsVouched codec json verifier signed identity key now context

  -- What the optional caller context of a request can be.
  pub data IsOptionallyDelegated (security : RpcInternalServiceSecurity) (metadata : MetadataMap)
      (identity : VerifiedRpcServiceIdentity) (now : SystemTime)
      : Option VerifiedRpcCallerContext → Type 0 where
    undelegated :
        optional_metadata tonic metadata rpc_caller_context_metadata ≡ passed none
        → optional_metadata tonic metadata rpc_caller_context_signature_metadata ≡ passed none
        → IsOptionallyDelegated security metadata identity now none
    delegated :
        {context : VerifiedRpcCallerContext}
        → IsDelegated security metadata identity now context
        → IsOptionallyDelegated security metadata identity now (some context)

  pub map_identity_error-eq-passed :
      {A : Type 0} (r : Result A) {a : A} → map_identity_error tonic r ≡ passed a → r ≡ ok a
  map_identity_error-eq-passed (ok x) e = cc
  map_identity_error-eq-passed (err error) e = cc

  or_refuse-eq-passed :
      {A : Type 0} (o : Option A) (s : Status) {a : A} → or_refuse tonic o s ≡ passed a → o ≡ some a
  or_refuse-eq-passed none s e = cc
  or_refuse-eq-passed (some x) s e = cc

  verify_supplied-IsDelegated :
      (security : RpcInternalServiceSecurity) (metadata : MetadataMap)
      (identity : VerifiedRpcServiceIdentity) (now : SystemTime) (encoded signature : String)
      (result : Option VerifiedRpcCallerContext)
      → optional_metadata tonic metadata rpc_caller_context_metadata ≡ passed (some encoded)
      → optional_metadata tonic metadata rpc_caller_context_signature_metadata
        ≡ passed (some signature)
      → verify_supplied tonic codec json security metadata identity now encoded signature
        ≡ passed result
      → IsOptionallyDelegated security metadata identity now result
  unfolding verify_supplied
  verify_supplied-IsDelegated security metadata identity now encoded signature result p q e =
      of_passed (or_refuse tonic security.caller_context_verifier _) _ e λ verifier q0 e0.
        of_passed (optional_metadata tonic metadata "idempotency-key") _ e0 λ key q1 e1.
          of_passed (map_identity_error tonic (verify codec json verifier _ identity key now)) _ e1
            λ context q2 e2.
              subst (IsOptionallyDelegated security metadata identity now) (passed_injective e2) (
                delegated (record {
                  verifier = verifier;
                  signed = record { encoded_context = encoded; signature = signature };
                  key = key;
                  configured = or_refuse-eq-passed security.caller_context_verifier _ q0;
                  context_sent = p;
                  signature_sent = q;
                  key_sent = q1;
                  vouched =
                      verify-IsVouched codec json verifier _ identity key now context
                        (map_identity_error-eq-passed _ q2);
                }))

  supplied-IsDelegated :
      (security : RpcInternalServiceSecurity) (metadata : MetadataMap)
      (identity : VerifiedRpcServiceIdentity) (now : SystemTime) (encoded signature : Option String)
      (result : Option VerifiedRpcCallerContext)
      → optional_metadata tonic metadata rpc_caller_context_metadata ≡ passed encoded
      → optional_metadata tonic metadata rpc_caller_context_signature_metadata ≡ passed signature
      → supplied tonic codec json security metadata identity now encoded signature ≡ passed result
      → IsOptionallyDelegated security metadata identity now result
  supplied-IsDelegated security metadata identity now (some c) (some s) result p q e =
      verify_supplied-IsDelegated security metadata identity now c s result p q e
  supplied-IsDelegated security metadata identity now none none result p q e =
      subst (IsOptionallyDelegated security metadata identity now) (passed_injective e)
        (undelegated p q)
  supplied-IsDelegated security metadata identity now none (some s) result p q e = absurd (cc)
  supplied-IsDelegated security metadata identity now (some c) none result p q e = absurd (cc)

  pub verify_optional_caller_context-IsDelegated :
      (security : RpcInternalServiceSecurity) (metadata : MetadataMap)
      (identity : VerifiedRpcServiceIdentity) (now : SystemTime)
      (result : Option VerifiedRpcCallerContext)
      → verify_optional_caller_context tonic codec json security metadata identity now
        ≡ passed result
      → IsOptionallyDelegated security metadata identity now result
  unfolding verify_optional_caller_context
  verify_optional_caller_context-IsDelegated security metadata identity now result e =
      of_passed (optional_metadata tonic metadata rpc_caller_context_metadata) _ e λ encoded p e0.
        of_passed (optional_metadata tonic metadata rpc_caller_context_signature_metadata) _ e0
          λ signature q e1.
            supplied-IsDelegated security metadata identity now encoded signature result p q e1
