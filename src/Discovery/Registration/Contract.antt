-- ===== src/Discovery/Registration/Contract.antt =====
-- What a registration that succeeds has established, in crates/sdkwork-rpc-discovery/src/lifecycle.rs.
use Prim.Native.String.{String}
use sdkwork_rpc_framework.Prelude.{
  ℕ, subst, ◌*◌, ◌≤◌, ◌<◌, ◌≡◌, refl, Bool, true, false, not, Option, none, some, List, [], ◌∷◌,
  ◌⊎◌, inl, inr, is_some, sym, Bool-cases, All, arith, ◌==◌, not-eq-true,
}
use sdkwork_rpc_framework.Prelude.Rust.{from_secs}
use sdkwork_rpc_framework.Prelude.Map.{lookup}
use sdkwork_rpc_framework.Prelude.Checked.{passed, of_passed, passed_injective, refused-ne-passed}
use sdkwork_rpc_framework.External.{Tonic, TextUtils, MetadataNames}
use sdkwork_rpc_framework.Discovery.Endpoint.{normalize_http_endpoint, require_non_blank}
use sdkwork_rpc_framework.Discovery.Headers.{
  Draws, unsigned_registry_read_metadata, unsigned_registry_write_metadata,
}
use sdkwork_rpc_framework.Discovery.Registry.{Registry}
use sdkwork_rpc_framework.Discovery.Registration.{
  DiscoveryInstanceConfig, DiscoveryRegistrationError, ensure, require_non_empty, require_all,
  required_texts, validate, key_of, DiscoveryInstanceHandle, wired, map_status, headers, connect,
  retrieved, revision_of, resolve_expected_revision, request_of, renew_interval_of, register,
}

-- The renew interval is at least a second, and three of them fit in a lease of three seconds or more.
renew_interval-bounds :
    (lease_ttl_seconds : ℕ)
    → (from_secs 1 ≤ renew_interval_of lease_ttl_seconds)
      × (3 ≤ lease_ttl_seconds
          → renew_interval_of lease_ttl_seconds * 3 ≤ from_secs lease_ttl_seconds)
renew_interval-bounds ttl = (omega arith, λ h. omega arith)

ensure-eq-passed :
    (test : Bool) (error : DiscoveryRegistrationError) {done : Unit {0}}
    → ensure test error ≡ passed done
    → test ≡ true
ensure-eq-passed true error e = refl
ensure-eq-passed false error e = cc

module _ (utils : TextUtils) where
  pub record IsComplete (config : DiscoveryInstanceConfig) : Type 0 where
    pub texts : All (λ entry. utils.is_blank entry.0 ≡ false) (required_texts utils config)
    pub lease : 0 < config.lease_ttl_seconds
    pub surface : is_some (lookup "rpc_surface" config.metadata) ≡ true

  require_non_empty-eq-passed :
      (value field : String) {done : Unit {0}}
      → require_non_empty utils value field ≡ passed done
      → utils.is_blank value ≡ false
  unfolding require_non_empty require_non_blank
  require_non_empty-eq-passed value field e = ground arith

  require_all-All :
      (entries : List (String × String)) {done : Unit {0}}
      → require_all utils entries ≡ passed done
      → All (λ entry. utils.is_blank entry.0 ≡ false) entries
  unfolding require_all
  require_all-All [] e = tt
  require_all-All (entry ∷ entries) e =
      of_passed (require_non_empty utils entry.0 entry.1) _ e
        λ done q e0. (require_non_empty-eq-passed entry.0 entry.1 q, require_all-All entries e0)

  validate-IsComplete :
      (config : DiscoveryInstanceConfig) {done : Unit {0}}
      → validate utils config ≡ passed done
      → IsComplete config
  unfolding validate
  validate-IsComplete config e =
      of_passed (require_all utils (required_texts utils config)) _ e λ texts q0 e0.
        of_passed (ensure (not (config.lease_ttl_seconds == 0)) _) _ e0 λ lease q1 e1. record {
          texts = require_all-All (required_texts utils config) q0;
          lease = ground (arith, ensure-eq-passed (not (config.lease_ttl_seconds == 0)) _ q1);
          surface = ensure-eq-passed _ _ e1;
        }

module _ (tonic : Tonic) (registry : Registry tonic) (utils : TextUtils)
    (names : MetadataNames) where
  open tonic use {Status, code, code_eq, not_found}
  open registry use {
    Channel, Endpoint, from_shared, connect_endpoint, retrieve_instance, register_instance,
  }

  -- What the registry knows of the instance, asked with the read template.
  abbrev asked : Channel → DiscoveryInstanceConfig → Draws → Status ⊎ Option ℕ
  asked client config read =
      retrieve_instance client (key_of config)
        (headers tonic registry (unsigned_registry_read_metadata names config.subject_id read))

  -- The revision that a registration is bound to: the configured one; else the registry's, where the
  -- configuration asks for it and the registry has one; else none.
  pub data IsExpected (client : Channel) (config : DiscoveryInstanceConfig) (read : Draws)
      (revision : Option ℕ) : Type 0 where
    configured :
        (n : ℕ)
        → config.expected_revision ≡ some n
        → revision ≡ some n
        → IsExpected client config read revision
    unbound :
        config.expected_revision ≡ none
        → config.revision_cas_on_register ≡ false
        → revision ≡ none
        → IsExpected client config read revision
    current :
        config.expected_revision ≡ none
        → config.revision_cas_on_register ≡ true
        → asked client config read ≡ inr revision
        → IsExpected client config read revision
    unknown :
        (status : Status)
        → config.expected_revision ≡ none
        → config.revision_cas_on_register ≡ true
        → asked client config read ≡ inl status
        → code_eq (code status) not_found ≡ true
        → revision ≡ none
        → IsExpected client config read revision

  retrieved-IsExpected :
      (client : Channel) (config : DiscoveryInstanceConfig) (read : Draws) (revision : Option ℕ)
      (answer : Status ⊎ Option ℕ)
      → config.expected_revision ≡ none
      → config.revision_cas_on_register ≡ true
      → asked client config read ≡ answer
      → retrieved tonic registry answer ≡ passed revision
      → IsExpected client config read revision
  retrieved-IsExpected client config read revision (inr known) free cas a e =
      current free cas (subst (λ o. asked client config read ≡ inr o) (passed_injective e) a)
  retrieved-IsExpected client config read revision (inl status) free cas a e =
      elim (Bool-cases (code_eq (code status) not_found)) [
        | inl missing ↦ unknown status free cas a missing (ground (arith, e))
        | inr other ↦ absurd (refused-ne-passed (rw other at e))
      ]

  revision_of-IsExpected :
      (client : Channel) (config : DiscoveryInstanceConfig) (read : Draws)
      (revision expected : Option ℕ)
      → config.expected_revision ≡ expected
      → revision_of tonic registry names client config read expected ≡ passed revision
      → IsExpected client config read revision
  revision_of-IsExpected client config read revision (some n) is e =
      configured n is (sym (passed_injective e))
  revision_of-IsExpected client config read revision none is e =
      elim (Bool-cases config.revision_cas_on_register) [
        | inl cas ↦ retrieved-IsExpected client config read revision _ is cas refl (rw cas at e)
        | inr free ↦ unbound is free (ground (arith, e))
      ]

  resolve-IsExpected :
      (client : Channel) (config : DiscoveryInstanceConfig) (read : Draws) (revision : Option ℕ)
      → resolve_expected_revision tonic registry names client config read ≡ passed revision
      → IsExpected client config read revision
  unfolding resolve_expected_revision
  resolve-IsExpected client config read revision e =
      revision_of-IsExpected client config read revision config.expected_revision refl e

  -- A registered instance: what was checked, what was sent, and what its handle keeps.
  pub record IsRegistered (config : DiscoveryInstanceConfig) (written read : Draws)
      (handle : DiscoveryInstanceHandle tonic registry) : Type 0 where
    pub complete : IsComplete utils config
    pub endpoint : Endpoint
    pub parsed :
        from_shared (normalize_http_endpoint utils config.discovery_endpoint) ≡ inr endpoint
    pub connected : connect_endpoint endpoint ≡ inr handle.client
    pub revision : Option ℕ
    pub expected : IsExpected handle.client config read revision
    pub leased :
        register_instance handle.client (request_of tonic registry config revision) (
          headers tonic registry (unsigned_registry_write_metadata names config.subject_id written))
        ≡ inr handle.lease_id
    pub named : utils.is_blank handle.lease_id ≡ false
    pub kept : handle.config ≡ config
    pub at_least_a_second : from_secs 1 ≤ handle.renew_interval
    pub three_within_lease :
        3 ≤ config.lease_ttl_seconds
        → handle.renew_interval * 3 ≤ from_secs config.lease_ttl_seconds

  wired-eq-passed :
      {A : Type 0} (answer : String ⊎ A) {a : A}
      → wired tonic registry answer ≡ passed a
      → answer ≡ inr a
  wired-eq-passed (inl error) e = cc
  wired-eq-passed (inr a) e = cc

  map_status-eq-passed :
      {A : Type 0} (answer : Status ⊎ A) {a : A}
      → map_status tonic registry answer ≡ passed a
      → answer ≡ inr a
  map_status-eq-passed (inl status) e = cc
  map_status-eq-passed (inr a) e = cc

  connect-eq-passed :
      (text : String) {client : Channel}
      → connect tonic registry utils text ≡ passed client
      → (endpoint : Endpoint) × (from_shared (normalize_http_endpoint utils text) ≡ inr endpoint)
        × (connect_endpoint endpoint ≡ inr client)
  unfolding connect
  connect-eq-passed text e =
      of_passed (wired tonic registry (from_shared (normalize_http_endpoint utils text))) _ e
        λ endpoint q e0. (endpoint, wired-eq-passed _ q, wired-eq-passed _ e0)

  -- A registration that succeeds was of a complete configuration, reached the discovery endpoint,
  -- sent the revision that the configuration or the registry decides, and got a lease that is not
  -- blank; the renew interval of its handle is at least a second, and three of them fit in a lease
  -- of three seconds or more.
  pub register-IsRegistered :
      (config : DiscoveryInstanceConfig) (written read : Draws)
      (handle : DiscoveryInstanceHandle tonic registry)
      → register tonic registry utils names config written read ≡ passed handle
      → IsRegistered config written read handle
  unfolding register
  register-IsRegistered config written read handle e =
      of_passed (validate utils config) _ e λ valid q0 e0.
        of_passed (connect tonic registry utils config.discovery_endpoint) _ e0 λ client q1 e1.
          of_passed (resolve_expected_revision tonic registry names client config read) _ e1
            λ revision q2 e2.
              of_passed
                (map_status tonic registry
                  (register_instance client (request_of tonic registry config revision) _))
                _ e2
                λ lease_id q3 e3.
                  of_passed (ensure (not (utils.is_blank lease_id)) _) _ e3 λ leased q4 e4.
                    let (endpoint, parsed, connected) =
                      connect-eq-passed config.discovery_endpoint q1 in
                    subst (IsRegistered config written read) (passed_injective e4) (record {
                      complete = validate-IsComplete utils config q0;
                      endpoint = endpoint;
                      parsed = parsed;
                      connected = connected;
                      revision = revision;
                      expected = resolve-IsExpected client config read revision q2;
                      leased = map_status-eq-passed _ q3;
                      named = not-eq-true (utils.is_blank lease_id) (ensure-eq-passed _ _ q4);
                      kept = refl;
                      at_least_a_second = (renew_interval-bounds config.lease_ttl_seconds).0;
                      three_within_lease = (renew_interval-bounds config.lease_ttl_seconds).1;
                    })
