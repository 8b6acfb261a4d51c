-- ===== src/Client/Metadata/Credential.antt =====
-- What crates/sdkwork-rpc-client/src/metadata.rs puts on a call, as crates/sdkwork-rpc-server reads it.
use Prim.Native.String.{String}
use text.Mathlib.TextEquality.{eq_iff}
use sdkwork_rpc_framework.Prelude.Text.{is_empty_text, trim, eq_ignore_ascii_case}
use sdkwork_rpc_framework.Prelude.{
  ◌≡◌, ◌≢◌, refl, sym, subst, ap, ◌∙◌, Bool, true, false, not, ◌⊎◌, Option, none, some, arith, inl,
  inr, if◌then◌else◌,
}
use sdkwork_rpc_framework.External.{Tonic, MetadataNames}
use sdkwork_rpc_framework.Core.Error.{RpcFrameworkError, Result, ok, err, validation, ◌>>=◌}
use sdkwork_rpc_framework.Core.CallerContext.{
  rpc_caller_context_metadata, rpc_caller_context_signature_metadata,
}
use sdkwork_rpc_framework.Prelude.Checked.{passed}
use sdkwork_rpc_framework.Server.Security.{optional_metadata}
use sdkwork_rpc_framework.Client.Metadata.{
  RpcServiceCredential, and_then, text_of, existing, matching, insert_parsed, insert_required,
  validate_bound_idempotency_metadata, insert_bound_key, apply_to,
}

-- The names differ, in whatever case they are read.
context-ne-key : eq_ignore_ascii_case rpc_caller_context_metadata "idempotency-key" ≡ false
unfolding eq_ignore_ascii_case
context-ne-key = refl

signature-ne-key :
    eq_ignore_ascii_case rpc_caller_context_signature_metadata "idempotency-key" ≡ false
unfolding eq_ignore_ascii_case
signature-ne-key = refl

signature-ne-context :
    eq_ignore_ascii_case rpc_caller_context_signature_metadata rpc_caller_context_metadata ≡ false
unfolding eq_ignore_ascii_case
signature-ne-context = refl

key-ne-context : eq_ignore_ascii_case "idempotency-key" rpc_caller_context_metadata ≡ false
unfolding eq_ignore_ascii_case
key-ne-context = refl

key-ne-signature :
    eq_ignore_ascii_case "idempotency-key" rpc_caller_context_signature_metadata ≡ false
unfolding eq_ignore_ascii_case
key-ne-signature = refl

module _ (tonic : Tonic) where
  open tonic use {
    MetadataMap, MetadataValue, get, insert, get-insert_self, get-insert_ne, to_str, value_of_str,
    to_str-value_of_str, is_key,
  }

  of_and_then {π} :
      {P : Type π} (step : MetadataMap × Result (Unit {0}))
      (next : MetadataMap → MetadataMap × Result (Unit {0})) {after : MetadataMap}
      → and_then tonic step next ≡ (after, ok tt)
      → ((m : MetadataMap) → step ≡ (m, ok tt) → next m ≡ (after, ok tt) → P)
      → P
  of_and_then (m, ok tt) next e k = k m refl e
  of_and_then (m, err error) next e k = absurd (cc)

  guard-eq-ok :
      (refuse : Bool) (m after : MetadataMap) (error : RpcFrameworkError)
      (rest : MetadataMap × Result (Unit {0}))
      → (if refuse then (m, err error) else rest) ≡ (after, ok tt)
      → rest ≡ (after, ok tt)
  guard-eq-ok true m after error rest e = absurd (cc)
  guard-eq-ok false m after error rest e = e

  -- A value that was inserted is there, and every other key is as it was.
  record IsInserted (before after : MetadataMap) (key text : String) : Type 0 where
    present : optional_metadata tonic after key ≡ passed (some text)
    others :
        (other : String)
        → eq_ignore_ascii_case key other ≡ false
        → optional_metadata tonic after other ≡ optional_metadata tonic before other

  insert_parsed-IsInserted :
      (before after : MetadataMap) (key text : String) (o : Option MetadataValue)
      → value_of_str text ≡ o
      → insert_parsed tonic before key o ≡ (after, ok tt)
      → IsInserted before after key text
  unfolding optional_metadata
  insert_parsed-IsInserted before after key text none v e = absurd (cc)
  insert_parsed-IsInserted before after key text (some value) v e =
      let made : insert before key value ≡ after = ap (λ p. p.0) e in
      subst (λ m. IsInserted before m key text) made
        (record {
          present = rw (get-insert_self before key value, to_str-value_of_str text value v) refl;
          others = λ other n. rw (get-insert_ne before key other value n) refl;
        })

  insert_required-IsInserted :
      (before after : MetadataMap) (key text : String)
      → insert_required tonic before key text ≡ (after, ok tt)
      → IsInserted before after key text
  unfolding insert_required
  insert_required-IsInserted before after key text e =
      insert_parsed-IsInserted before after key text (value_of_str text) refl
        (guard-eq-ok (not (is_key key)) _ _ _ _ (guard-eq-ok (is_empty_text (trim text)) _ _ _ _ e))

  abbrev Carries : Option String → MetadataMap → MetadataMap → Type 0
  Carries key before after =
      (optional_metadata tonic after "idempotency-key" ≡ passed key)
      × ((other : String)
          → eq_ignore_ascii_case "idempotency-key" other ≡ false
          → optional_metadata tonic after other ≡ optional_metadata tonic before other)

  insert_bound_key-Carries :
      (names : MetadataNames) (key : Option String) (before after : MetadataMap)
      → names.idempotency_key ≡ "idempotency-key"
      → (key ≡ none → optional_metadata tonic before "idempotency-key" ≡ passed none)
      → insert_bound_key tonic names key before ≡ (after, ok tt)
      → Carries key before after
  insert_bound_key-Carries names none before after named was e =
      let same : before ≡ after = ap (λ p. p.0) e in
      subst (Carries none before) same (was refl, λ other n. refl)
  insert_bound_key-Carries names (some key) before after named was e =
      let done =
        insert_required-IsInserted before after "idempotency-key" key
          (subst (λ name. insert_required tonic before name key ≡ (after, ok tt)) named e) in
      (done.present, done.others)

  unbound :
      (found : Option MetadataValue)
      → (existing tonic found >>= matching tonic none) ≡ ok tt
      → found ≡ none
  unbound none e = refl
  unbound (some value) e = ground arith

  -- A credential without a key is applied only where the call has none.
  validate-unbound :
      (names : MetadataNames) (metadata : MetadataMap)
      → names.idempotency_key ≡ "idempotency-key"
      → validate_bound_idempotency_metadata tonic names metadata none ≡ ok tt
      → optional_metadata tonic metadata "idempotency-key" ≡ passed none
  unfolding validate_bound_idempotency_metadata optional_metadata
  validate-unbound names metadata named e =
      rw (unbound (get metadata "idempotency-key") (rw named at e)) refl

  -- What a credential that was applied leaves in the map.
  pub record IsCarried (names : MetadataNames) (credential : RpcServiceCredential)
      (before after : MetadataMap) : Type 0 where
    pub context :
        optional_metadata tonic after rpc_caller_context_metadata
        ≡ passed (some credential.signed_caller_context.encoded_context)
    pub signature :
        optional_metadata tonic after rpc_caller_context_signature_metadata
        ≡ passed (some credential.signed_caller_context.signature)
    pub key : optional_metadata tonic after "idempotency-key" ≡ passed credential.idempotency_key
    pub others :
        (other : String)
        → eq_ignore_ascii_case rpc_caller_context_metadata other ≡ false
        → eq_ignore_ascii_case rpc_caller_context_signature_metadata other ≡ false
        → eq_ignore_ascii_case "idempotency-key" other ≡ false
        → optional_metadata tonic after other ≡ optional_metadata tonic before other

  pub apply_to-IsCarried :
      (names : MetadataNames) (credential : RpcServiceCredential) (before after : MetadataMap)
      → names.idempotency_key ≡ "idempotency-key"
      → apply_to tonic names credential before ≡ (after, ok tt)
      → IsCarried names credential before after
  unfolding apply_to
  apply_to-IsCarried names credential before after named e =
      of_and_then
        (before, validate_bound_idempotency_metadata tonic names before credential.idempotency_key)
        _ e
        λ m0 q0 e0.
          of_and_then (insert_required tonic m0 rpc_caller_context_metadata _) _ e0 λ m1 q1 e1.
            of_and_then (insert_required tonic m1 rpc_caller_context_signature_metadata _) _ e1
              λ m2 q2 e2.
                let c = insert_required-IsInserted m0 m1 rpc_caller_context_metadata _ q1 in
                let s =
                  insert_required-IsInserted m1 m2 rpc_caller_context_signature_metadata _ q2 in
                let k =
                  insert_bound_key-Carries names credential.idempotency_key m2 after named
                    (λ n.
                      s.others "idempotency-key" signature-ne-key
                      ∙ c.others "idempotency-key" context-ne-key
                      ∙ subst (λ m. optional_metadata tonic m "idempotency-key" ≡ passed none)
                          (ap (λ p. p.0) q0)
                          (validate-unbound names before named (
                            subst
                              (λ key.
                                validate_bound_idempotency_metadata tonic names before key ≡ ok tt)
                              n (ap (λ p. p.1) q0))))
                    e2 in
                record {
                  context =
                      k.1 rpc_caller_context_metadata key-ne-context
                      ∙ s.others rpc_caller_context_metadata signature-ne-context
                      ∙ c.present;
                  signature =
                      k.1 rpc_caller_context_signature_metadata key-ne-signature ∙ s.present;
                  key = k.0;
                  others = λ other context signature key.
                      k.1 other key
                      ∙ s.others other signature
                      ∙ c.others other context
                      ∙ sym (ap (λ p. optional_metadata tonic p.0 other) q0);
                }

  text-conflict :
      (text key : Option String)
      → (text ≡ none) ⊎ (text ≢ key)
      → (message : String) × ((text_of tonic text >>= matching tonic key)
          ≡ err (validation message))
  text-conflict none key h = (_, refl)
  text-conflict (some actual) none h = (_, refl)
  text-conflict (some actual) (some key) (inl absent) = absurd (cc)
  text-conflict (some actual) (some key) (inr differs) = (
    "existing RPC idempotency metadata does not match the signed caller context",
    ground (arith, eq_iff key actual),
  )

  -- A call whose idempotency key is not text, or is not the key that the credential binds, is refused
  -- with a validation error, and its metadata stays as it was.
  pub apply_to-conflict :
      (names : MetadataNames) (credential : RpcServiceCredential) (metadata : MetadataMap)
      (found : MetadataValue)
      → get metadata names.idempotency_key ≡ some found
      → (to_str found ≡ none) ⊎ (to_str found ≢ credential.idempotency_key)
      → (message : String) × (apply_to tonic names credential metadata
          ≡ (metadata, err (validation message)))
  unfolding apply_to validate_bound_idempotency_metadata
  apply_to-conflict names credential metadata found there differs =
      let (message, refusal) = text-conflict (to_str found) credential.idempotency_key differs in
      (message, rw (there, refusal) refl)
