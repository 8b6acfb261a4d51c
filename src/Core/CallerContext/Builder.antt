-- ===== src/Core/CallerContext/Builder.antt =====
-- What `RpcCallerContextBuilder::build` of crates/sdkwork-rpc-core/src/caller_context.rs accepts.
use sdkwork_rpc_framework.Prelude.{
  String, ◌≡◌, refl, sym, ap, subst, ◌∙◌, false, not, Option, none, some, [], ◌∷◌, arith,
  not-eq-true, All, ◌↔◌,
}
use sdkwork_rpc_framework.Core.Error.{ok, ok_or, of_bind, ensure-eq-ok, ok_or-eq-ok, ok_injective}
use sdkwork_rpc_framework.Core.Identifier.{
  validate_identifier, IsIdentifier, validate_identifier-IsIdentifier,
  IsIdentifier-validate_identifier,
}
use sdkwork_rpc_framework.Core.CallerContext.{
  RpcCallerContext, RpcCallerContextBuilder, lacks_session, build, validated_identifier,
  required_identifier, optional_identifier,
}
use sdkwork_rpc_framework.Core.CallerContext.Payload.{IsOptional, absent, present}

-- Every field is an identifier where it is present, and a user has a session.
pub record IsWellFormed (context : RpcCallerContext) : Type 0 where
  pub required : All IsIdentifier (
      context.tenant_id ∷ context.organization_id ∷ context.actor_id ∷ context.request_id
      ∷ context.audience_service_id ∷ [])
  pub with_session : lacks_session context.actor_kind context.session_id ≡ false
  pub optional :
      All IsOptional (context.session_id ∷ context.trace_id ∷ context.idempotency_key ∷ [])

-- The builder holds what the context holds.
abbrev pub builder_of : RpcCallerContext → RpcCallerContextBuilder
builder_of context = record {
  tenant_id = some context.tenant_id;
  organization_id = some context.organization_id;
  actor_id = some context.actor_id;
  actor_kind = some context.actor_kind;
  session_id = context.session_id;
  request_id = some context.request_id;
  trace_id = context.trace_id;
  idempotency_key = context.idempotency_key;
  audience_service_id = some context.audience_service_id;
}

required_identifier-eq-ok :
    (field : String) (o : Option String) {value : String}
    → required_identifier field o ≡ ok value
    → (o ≡ some value) × IsIdentifier value
unfolding required_identifier
required_identifier-eq-ok field none e = cc
required_identifier-eq-ok field (some v) e = of_bind (validate_identifier field v) _ e λ a q e'. (
  ap some (ok_injective e'),
  subst IsIdentifier (ok_injective e') (validate_identifier-IsIdentifier field v (ground arith)),
)

optional_identifier-eq-ok :
    (field : String) (o : Option String) {value : Option String}
    → optional_identifier field o ≡ ok value
    → (o ≡ value) × IsOptional value
unfolding optional_identifier required_identifier
optional_identifier-eq-ok field none e = (ok_injective e, subst IsOptional (ok_injective e) absent)
optional_identifier-eq-ok field (some v) e =
    of_bind (validated_identifier field v) _ e λ value q e'.
      let (same, named) = required_identifier-eq-ok field (some v) q in
      (same ∙ ok_injective e', subst IsOptional (ok_injective e') (present named))

build-IsWellFormed :
    (b : RpcCallerContextBuilder) (context : RpcCallerContext)
    → build b ≡ ok context
    → (b ≡ builder_of context) × IsWellFormed context
unfolding build
build-IsWellFormed b context e =
    of_bind (required_identifier "tenant_id" b.tenant_id) _ e λ tenant q0 e0.
      of_bind (required_identifier "organization_id" b.organization_id) _ e0 λ organization q1 e1.
        of_bind (required_identifier "actor_id" b.actor_id) _ e1 λ actor q2 e2.
          of_bind (ok_or b.actor_kind _) _ e2 λ kind q3 e3.
            of_bind (required_identifier "request_id" b.request_id) _ e3 λ request q4 e4.
              of_bind (required_identifier "audience_service_id" b.audience_service_id) _ e4
                λ audience q5 e5.
                  of_bind (optional_identifier "session_id" b.session_id) _ e5 λ session q6 e6.
                    of_bind (optional_identifier "trace_id" b.trace_id) _ e6 λ trace q7 e7.
                      of_bind (optional_identifier "idempotency_key" b.idempotency_key) _ e7
                        λ idempotency q8 e8.
                          let (with_session, last) =
                            ensure-eq-ok (not (lacks_session kind session)) _ _ e8 in
                          let (p0, i0) = required_identifier-eq-ok "tenant_id" b.tenant_id q0 in
                          let (p1, i1) =
                            required_identifier-eq-ok "organization_id" b.organization_id q1 in
                          let (p2, i2) = required_identifier-eq-ok "actor_id" b.actor_id q2 in
                          let (p4, i4) = required_identifier-eq-ok "request_id" b.request_id q4 in
                          let (p5, i5) =
                            required_identifier-eq-ok "audience_service_id" b.audience_service_id
                              q5 in
                          let (p6, i6) = optional_identifier-eq-ok "session_id" b.session_id q6 in
                          let (p7, i7) = optional_identifier-eq-ok "trace_id" b.trace_id q7 in
                          let (p8, i8) =
                            optional_identifier-eq-ok "idempotency_key" b.idempotency_key q8 in
                          subst (λ c. (b ≡ builder_of c) × IsWellFormed c) (ok_injective last)
                            (
                              cc (p0, p1, p2, ok_or-eq-ok _ _ q3, p4, p5, p6, p7, p8),
                              record {
                                required = (i0, (i1, (i2, (i4, (i5, tt)))));
                                with_session = not-eq-true _ with_session;
                                optional = (i6, (i7, (i8, tt)));
                              },
                            )

IsIdentifier-required_identifier :
    (field value : String) → IsIdentifier value → required_identifier field (some value) ≡ ok value
unfolding required_identifier
IsIdentifier-required_identifier field value h =
    rw (IsIdentifier-validate_identifier field value h) refl

IsOptional-optional_identifier :
    (field : String) (value : Option String)
    → IsOptional value
    → optional_identifier field value ≡ ok value
unfolding optional_identifier
IsOptional-optional_identifier field none absent = refl
IsOptional-optional_identifier field (some v) (present h) =
    rw (IsIdentifier-validate_identifier field v h) refl

IsWellFormed-build :
    (context : RpcCallerContext) → IsWellFormed context → build (builder_of context) ≡ ok context
unfolding build
IsWellFormed-build context h =
    let (tenant, (organization, (actor, (request, (audience, end))))) = h.required in
    let (session, (trace, (idempotency, last))) = h.optional in
    rw
      (
        IsIdentifier-required_identifier "tenant_id" context.tenant_id tenant,
        IsIdentifier-required_identifier "organization_id" context.organization_id organization,
        IsIdentifier-required_identifier "actor_id" context.actor_id actor,
        IsIdentifier-required_identifier "request_id" context.request_id request,
        IsIdentifier-required_identifier "audience_service_id" context.audience_service_id audience,
        IsOptional-optional_identifier "session_id" context.session_id session,
        IsOptional-optional_identifier "trace_id" context.trace_id trace,
        IsOptional-optional_identifier "idempotency_key" context.idempotency_key idempotency,
        h.with_session,
      )
      refl

-- A builder yields a context exactly when it holds that context's fields, every one that is present
-- is an identifier, and a user has a session.
pub build_iff :
    (b : RpcCallerContextBuilder) (context : RpcCallerContext)
    → (build b ≡ ok context) ↔ ((b ≡ builder_of context) × IsWellFormed context)
build_iff b context = (
  build-IsWellFormed b context,
  λ (same, formed).
      subst (λ x. build x ≡ ok context) (sym same) (IsWellFormed-build context formed),
)
