-- ===== src/Tests/Outbound.antt =====
-- A credential that the orders service issues and puts on a call to billing: the theorems on
-- crates/sdkwork-rpc-client/src/metadata.rs at that call.
use text.Mathlib.TextEquality.{eq_iff}
use Prim.Native.String.{String}
use sdkwork_rpc_framework.Prelude.{◌≡◌, refl, none, some, inr, arith}
use sdkwork_rpc_framework.Prelude.Rust.{from_secs}
use sdkwork_rpc_framework.Prelude.Int.{pos}
use sdkwork_rpc_framework.External.{MetadataNames}
use sdkwork_rpc_framework.Core.Error.{ok, err, validation}
use sdkwork_rpc_framework.Core.Time.{unix_seconds}
use sdkwork_rpc_framework.Prelude.Text.{trim}
use sdkwork_rpc_framework.Tests.JsonSample.{only}
use sdkwork_rpc_framework.Core.CallerContext.{signing_input}
use sdkwork_rpc_framework.Core.CallerContext.Signer.{sign_at}
use sdkwork_rpc_framework.Server.Security.{RpcInternalServiceSecurity}
use sdkwork_rpc_framework.Client.Metadata.{
  RpcServiceCredential, SignedRpcServiceCredentialProvider, issue, apply_to,
  validate_bound_idempotency_metadata, insert_required,
}
use sdkwork_rpc_framework.Client.Metadata.Credential.{apply_to-conflict}
use sdkwork_rpc_framework.Tests.Instances.{Metadata, numbered, lettered, put}
use sdkwork_rpc_framework.Tests.Caller.{verifier, signer, signed, sample_context, json}
use sdkwork_rpc_framework.Tests.Identity.{policy}

abbrev pub names : MetadataNames
names = record {
  authorization = "authorization";
  access_token = "access-token";
  request_id = "x-request-id";
  traceparent = "traceparent";
  idempotency_key = "idempotency-key";
  request_hash = "x-request-hash";
}

abbrev pub security : RpcInternalServiceSecurity
security = record { service_identity_policy = policy; caller_context_verifier = some verifier }

abbrev pub provider : SignedRpcServiceCredentialProvider
provider = record { signer = signer; ttl = from_secs 60 }

abbrev pub credential : RpcServiceCredential
credential = record { signed_caller_context = signed; idempotency_key = some "key-1" }

abbrev pub nothing : Metadata
nothing = λ k. none

abbrev pub after : Metadata
after =
    put
      (put (put nothing "x-sdkwork-rpc-caller-context" signed.encoded_context)
        "x-sdkwork-rpc-caller-signature" signed.signature)
      "idempotency-key" "key-1"

some_injective : {a b : String} → some a ≡ some b → a ≡ b
some_injective e = cc

pub issued_sample :
    issue lettered json provider sample_context (pos (from_secs 1_000)) "nonce-1" ≡ ok credential
unfolding issue sign_at unix_seconds json only signed lettered signing_input
issued_sample = refl

pub applied_sample : apply_to numbered names credential nothing ≡ (after, ok tt)
unfolding apply_to validate_bound_idempotency_metadata insert_required trim signed
applied_sample = refl

apply_to-conflict_example :
    (message : String) × (apply_to numbered names credential (put nothing "idempotency-key" "key-2")
      ≡ (put nothing "idempotency-key" "key-2", err (validation message)))
apply_to-conflict_example =
    apply_to-conflict numbered names credential (put nothing "idempotency-key" "key-2") "key-2" refl
      (inr (λ e. ground (arith, (eq_iff "key-2" "key-1").1 (some_injective e))))
