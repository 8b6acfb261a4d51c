-- ===== src/Core/CallerContext/Payload.antt =====
-- What `validate_payload` of crates/sdkwork-rpc-core/src/caller_context.rs accepts.
use Prim.Native.String.{String}
use sdkwork_rpc_framework.Prelude.{
  ℕ, ◌≤◌, ◌<◌, ◌≡◌, refl, true, false, not, Option, none, some, List, [], ◌∷◌, arith, ==-eq-true,
  not-eq-true, All, ap, ◌∙◌,
}
use sdkwork_rpc_framework.Prelude.Rust.{Duration, as_secs}
use sdkwork_rpc_framework.Prelude.Int.{ℤ, pos, negsuc, ◌-ℤ◌, i64_max, checked_sub, checked_i64}
use sdkwork_rpc_framework.Core.Error.{ok, ok_or, of_bind, ensure-eq-ok, ok_or-eq-ok}
use sdkwork_rpc_framework.Core.Identifier.{
  validate_identifier, IsIdentifier, validate_identifier-IsIdentifier,
  IsIdentifier-validate_identifier,
}
use sdkwork_rpc_framework.Core.CallerContext.{
  SignedRpcCallerContextPayload, caller_context_version, lacks_session,
}
use sdkwork_rpc_framework.Core.CallerContext.Verifier.{
  validate_fields, validate_options, validate_payload, ttl_refused, required_fields,
  optional_fields,
}

-- An optional field is absent or an identifier.
pub data IsOptional : Option String → Type 0 where
  absent : IsOptional none
  present : {value : String} → IsIdentifier value → IsOptional (some value)

-- A payload whose fields are well formed and whose lifetime is within the limit.
pub record IsValidPayload (payload : SignedRpcCallerContextPayload) (max_ttl : Duration)
    : Type 0 where
  pub versioned : payload.version ≡ caller_context_version
  pub required : All (λ f. IsIdentifier f.1) (required_fields payload)
  pub with_session : lacks_session payload.actor_kind payload.session_id ≡ false
  pub optional : All (λ f. IsOptional f.1) (optional_fields payload)
  pub ttl : ℕ
  pub lifetime : payload.expires_at_unix_seconds -ℤ payload.issued_at_unix_seconds ≡ pos ttl
  pub positive : 0 < ttl
  pub in_range : ttl ≤ i64_max
  pub within : ttl ≤ as_secs max_ttl

validate_fields-All :
    (fields : List (String × String))
    → validate_fields fields ≡ ok tt
    → All (λ f. IsIdentifier f.1) fields
unfolding validate_fields
validate_fields-All [] e = tt
validate_fields-All ((f, v) ∷ rest) e =
    of_bind (validate_identifier f v) _ e
      λ a q e'. (validate_identifier-IsIdentifier f v (ground arith), validate_fields-All rest e')

All-validate_fields :
    (fields : List (String × String))
    → All (λ f. IsIdentifier f.1) fields
    → validate_fields fields ≡ ok tt
unfolding validate_fields
All-validate_fields [] a = refl
All-validate_fields ((f, v) ∷ rest) (h, a) =
    rw (IsIdentifier-validate_identifier f v h) (All-validate_fields rest a)

validate_options-All :
    (fields : List (String × Option String))
    → validate_options fields ≡ ok tt
    → All (λ f. IsOptional f.1) fields
unfolding validate_options
validate_options-All [] e = tt
validate_options-All ((f, none) ∷ rest) e = (absent, validate_options-All rest e)
validate_options-All ((f, some v) ∷ rest) e = of_bind (validate_identifier f v) _ e λ a q e'.
    (present (validate_identifier-IsIdentifier f v (ground arith)), validate_options-All rest e')

All-validate_options :
    (fields : List (String × Option String))
    → All (λ f. IsOptional f.1) fields
    → validate_options fields ≡ ok tt
unfolding validate_options
All-validate_options [] a = refl
All-validate_options ((f, none) ∷ rest) (h, a) = All-validate_options rest a
All-validate_options ((f, some v) ∷ rest) (present h, a) =
    rw (IsIdentifier-validate_identifier f v h) (All-validate_options rest a)

ttl_refused-eq-false :
    (max_ttl : Duration) (d : ℤ)
    → not (ttl_refused max_ttl d) ≡ true
    → (ttl : ℕ) × (d ≡ pos ttl) × (0 < ttl) × (ttl ≤ as_secs max_ttl)
ttl_refused-eq-false max_ttl (pos n) h = (n, refl, ground arith, ground arith)
ttl_refused-eq-false max_ttl (negsuc n) h = cc

checked_i64-eq-some : (d : ℤ) {t : ℕ} → checked_i64 d ≡ some (pos t) → (d ≡ pos t) × (t ≤ i64_max)
checked_i64-eq-some (pos n) h = ground arith
checked_i64-eq-some (negsuc n) h = ground arith

pub validate_payload-IsValid :
    (payload : SignedRpcCallerContextPayload) (max_ttl : Duration)
    → validate_payload payload max_ttl ≡ ok tt
    → IsValidPayload payload max_ttl
unfolding validate_payload
validate_payload-IsValid payload max_ttl e =
    let (versioned, e0) = ensure-eq-ok _ _ _ e in
    of_bind (validate_fields (required_fields payload)) _ e0 λ u0 q0 e1.
      let (with_session, e2) = ensure-eq-ok _ _ _ e1 in
      of_bind (validate_options (optional_fields payload)) _ e2 λ u1 q1 e3.
        of_bind
          (ok_or (checked_sub payload.expires_at_unix_seconds payload.issued_at_unix_seconds) _) _
          e3
          λ d q2 e4.
            let (limited, e5) = ensure-eq-ok (not (ttl_refused max_ttl d)) _ _ e4 in
            let (ttl, same, positive, within) = ttl_refused-eq-false max_ttl d limited in
            let (lifetime, in_range) =
              checked_i64-eq-some
                (payload.expires_at_unix_seconds -ℤ payload.issued_at_unix_seconds) {t = ttl}
                (ok_or-eq-ok _ _ q2 ∙ ap some same) in
            record {
              versioned = ==-eq-true _ _ versioned;
              required = validate_fields-All (required_fields payload) q0;
              with_session = not-eq-true _ with_session;
              optional = validate_options-All (optional_fields payload) q1;
              ttl = ttl;
              lifetime = lifetime;
              positive = positive;
              in_range = in_range;
              within = within;
            }

pub IsValid-validate_payload :
    (payload : SignedRpcCallerContextPayload) (max_ttl : Duration)
    → IsValidPayload payload max_ttl
    → validate_payload payload max_ttl ≡ ok tt
unfolding validate_payload
IsValid-validate_payload payload max_ttl h = ground (
  arith,
  h.versioned,
  h.with_session,
  h.lifetime,
  h.positive,
  h.in_range,
  h.within,
  All-validate_fields (required_fields payload) h.required,
  All-validate_options (optional_fields payload) h.optional,
)
