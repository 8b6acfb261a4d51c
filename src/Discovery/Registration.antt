-- ===== src/Discovery/Registration.antt =====
-- crates/sdkwork-rpc-discovery/src/lifecycle.rs: registration of an instance, and the calls of its handle.
-- The registry answers a request as the parameter says; `inl` holds an error.
pub mod Contract
use Prim.Native.String.{String, ◌++◌}
use sdkwork_rpc_framework.Prelude.{
  ℕ, ◌/◌, max, Bool, true, false, not, Option, none, some, List, [], ◌∷◌, ◌⊎◌, inl, inr, is_some,
  if◌then◌else◌, ◌==◌,
}
use sdkwork_rpc_framework.Prelude.Rust.{Duration, from_secs}
use sdkwork_rpc_framework.Prelude.Map.{Map, lookup}
use sdkwork_rpc_framework.Prelude.Checked.{Checked, refused, passed, ◌>>=◌}
use sdkwork_rpc_framework.External.{Tonic, TextUtils, MetadataNames}
use sdkwork_rpc_framework.Discovery.Registry.{
  InstanceKey, RegisterInstanceRequest, RenewLeaseRequest, Registry,
}
use sdkwork_rpc_framework.Discovery.Endpoint.{normalize_http_endpoint, require_non_blank}
use sdkwork_rpc_framework.Discovery.Headers.{
  Draws, unsigned_registry_read_metadata, unsigned_registry_write_metadata, apply_metadata_template,
}

pub record DiscoveryInstanceConfig : Type 0 where
  pub discovery_endpoint : String
  pub namespace : String
  pub environment : String
  pub service_name : String
  pub instance_id : String
  pub advertised_endpoint : String
  pub protocol : String
  pub version : String
  pub region : String
  pub zone : String
  pub lease_ttl_seconds : ℕ
  pub subject_id : String
  pub metadata : Map String
  pub revision_cas_on_register : Bool
  pub expected_revision : Option ℕ

pub data DiscoveryRegistrationError : Type 0 where
  validation transport rpc : (message : String) → DiscoveryRegistrationError

-- `#[error(..)]`.
unfoldable pub display : DiscoveryRegistrationError → String
display (validation message) = "validation failed: " ++ message
display (transport message) = "transport failed: " ++ message
display (rpc message) = "discovery rpc failed: " ++ message

abbrev pub Answer : Type 0 → Type 0
Answer A = Checked DiscoveryRegistrationError A

abbrev pub ensure : Bool → DiscoveryRegistrationError → Answer (Unit {0})
ensure test error = if test then passed tt else refused error

module _ (utils : TextUtils) where
  abbrev invalid : String ⊎ Unit {0} → Answer (Unit {0})
  invalid (inl message) = refused (validation message)
  invalid (inr done) = passed tt

  unfoldable pub require_non_empty : String → String → Answer (Unit {0})
  require_non_empty value field = invalid (require_non_blank utils value field)

  unfoldable pub require_all : List (String × String) → Answer (Unit {0})
  require_all [] = passed tt
  require_all (entry ∷ entries) = do done ← require_non_empty entry.0 entry.1; require_all entries

  -- The texts that must not be blank, with their names, in the order of the checks.
  abbrev pub required_texts : DiscoveryInstanceConfig → List (String × String)
  required_texts config =
      (config.discovery_endpoint, "discovery_endpoint")
      ∷ (config.namespace, "namespace")
      ∷ (config.environment, "environment")
      ∷ (config.service_name, "service_name")
      ∷ (config.instance_id, "instance_id")
      ∷ (config.advertised_endpoint, "advertised_endpoint")
      ∷ (config.protocol, "protocol")
      ∷ (config.version, "version")
      ∷ (config.region, "region")
      ∷ (config.zone, "zone")
      ∷ (config.subject_id, "subject_id")
      ∷ []

  unfoldable pub validate : DiscoveryInstanceConfig → Answer (Unit {0})
  validate config = do
    texts ← require_all (required_texts config)
    lease ←
        ensure (not (config.lease_ttl_seconds == 0))
          (validation "lease_ttl_seconds must be greater than zero")
    ensure (is_some (lookup "rpc_surface" config.metadata))
        (validation "metadata.rpc_surface is required")

abbrev pub key_of : DiscoveryInstanceConfig → InstanceKey
key_of config = record {
  namespace = config.namespace;
  environment = config.environment;
  service_name = config.service_name;
  instance_id = config.instance_id;
}

abbrev pub renew_interval_of : ℕ → Duration
renew_interval_of lease_ttl_seconds = from_secs (max lease_ttl_seconds 3 / 3)

module _ (tonic : Tonic) (registry : Registry tonic) where
  open tonic use {MetadataMap, Status, empty_metadata, code, code_eq, not_found}
  open registry use {
    Endpoint, Channel, from_shared, connect_endpoint, status_text, serving, retrieve_instance,
    register_instance, renew_lease, deregister_instance,
  }

  pub record DiscoveryInstanceHandle : Type 0 where
    pub client : Channel
    pub config : DiscoveryInstanceConfig
    pub lease_id : String
    pub renew_interval : Duration
    pub metadata_template : List (String × String)

  -- `map_err` of a transport error and of a status.
  abbrev pub wired : {A : Type 0} → String ⊎ A → Answer A
  wired (inl error) = refused (transport error)
  wired (inr a) = passed a

  abbrev pub map_status : {A : Type 0} → Status ⊎ A → Answer A
  map_status (inl status) = refused (rpc (status_text status))
  map_status (inr a) = passed a

  -- A request's metadata, from its template.
  abbrev pub headers : List (String × String) → MetadataMap
  headers template = apply_metadata_template tonic empty_metadata template

  unfoldable pub connect : TextUtils → String → Answer Channel
  connect utils endpoint = do
    parsed ← wired (from_shared (normalize_http_endpoint utils endpoint))
    wired (connect_endpoint parsed)

  abbrev pub retrieved : Status ⊎ Option ℕ → Answer (Option ℕ)
  retrieved (inl status) =
      if code_eq (code status) not_found then passed none else refused (rpc (status_text status))
  retrieved (inr revision) = passed revision

  abbrev pub revision_of :
      MetadataNames → Channel → DiscoveryInstanceConfig → Draws → Option ℕ → Answer (Option ℕ)
  revision_of names client config draws (some revision) = passed (some revision)
  revision_of names client config draws none =
      if config.revision_cas_on_register
      then retrieved (
          retrieve_instance client (key_of config)
            (headers (unsigned_registry_read_metadata names config.subject_id draws)))
      else passed none

  unfoldable pub resolve_expected_revision :
      MetadataNames → Channel → DiscoveryInstanceConfig → Draws → Answer (Option ℕ)
  resolve_expected_revision names client config draws =
      revision_of names client config draws config.expected_revision

  abbrev pub request_of :
      DiscoveryInstanceConfig → Option ℕ → RegisterInstanceRequest registry.InstanceStatus
  request_of config expected_revision = record {
    key = key_of config;
    endpoint = config.advertised_endpoint;
    protocol = config.protocol;
    version = config.version;
    region = config.region;
    zone = config.zone;
    weight = 100;
    priority = 0;
    status = serving;
    metadata = config.metadata;
    lease_ttl_seconds = config.lease_ttl_seconds;
    expected_revision = expected_revision;
    persistent = false;
  }

  -- `register`, with the draws of its write template and of its read template.
  unfoldable pub register :
      TextUtils
      → MetadataNames
      → DiscoveryInstanceConfig
      → Draws
      → Draws
      → Answer DiscoveryInstanceHandle
  register utils names config written read = do
    valid ← validate utils config
    client ← connect utils config.discovery_endpoint
    expected_revision ← resolve_expected_revision names client config read
    lease_id ← map_status (
        register_instance client (request_of config expected_revision)
          (headers (unsigned_registry_write_metadata names config.subject_id written)))
    leased ←
        ensure (not (utils.is_blank lease_id)) (rpc "register_instance returned empty lease_id")
    passed (record {
      client = client;
      config = config;
      lease_id = lease_id;
      renew_interval = renew_interval_of config.lease_ttl_seconds;
      metadata_template = unsigned_registry_write_metadata names config.subject_id written;
    })

  unfoldable pub renew_once : DiscoveryInstanceHandle → Answer (Unit {0})
  renew_once handle = map_status (
      renew_lease handle.client
        (record { lease_id = handle.lease_id; lease_ttl_seconds = handle.config.lease_ttl_seconds })
        (headers handle.metadata_template))

  unfoldable pub deregister : DiscoveryInstanceHandle → Answer (Unit {0})
  deregister handle =
      map_status (
        deregister_instance handle.client (key_of handle.config) (headers handle.metadata_template))
