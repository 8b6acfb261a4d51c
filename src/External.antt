-- ===== src/External.antt =====
-- What the framework calls and does not implement: interfaces of the tonic crate, of the codecs of
-- sdkwork_utils_rust, and of the x509_parser crate. The laws are what their documentation promises.

-- Status codes, statuses, and the ASCII metadata of a request or a status.
use sdkwork_rpc_framework.Prelude.Text.{eq_ignore_ascii_case}
use sdkwork_rpc_framework.Prelude.{
  ℕ, ◌+◌, ◌-◌, ◌*◌, ◌^◌, ◌≤◌, ◌<◌, min, String, ◌≡◌, ◌≢◌, ◌↔◌, ◌⊎◌, Bool, true, false, Option, some,
  List,
}

pub record Tonic : Type 1 where
  -- `Code`, an enum that is `Copy + Eq`, and the variants that the source names.
  pub Code : Type 0
  pub code_eq : Code → Code → Bool
  pub code_eq_iff : (a b : Code) → (code_eq a b ≡ true) ↔ (a ≡ b)
  pub unavailable : Code
  pub resource_exhausted : Code
  pub unauthenticated : Code
  pub failed_precondition : Code
  pub invalid_argument : Code
  pub not_found : Code
  pub unavailable-ne-resource_exhausted : unavailable ≢ resource_exhausted
  -- `MetadataMap`: `get` of a key, and `insert`, which replaces every value of the key and leaves the
  -- keys that differ from it otherwise than in case.
  pub MetadataMap : Type 0
  pub MetadataValue : Type 0
  pub empty_metadata : MetadataMap
  pub get : MetadataMap → String → Option MetadataValue
  pub insert : MetadataMap → String → MetadataValue → MetadataMap
  pub get-insert_self :
      (m : MetadataMap) (k : String) (v : MetadataValue) → get (insert m k v) k ≡ some v
  pub get-insert_ne :
      (m : MetadataMap) (k j : String) (v : MetadataValue)
      → eq_ignore_ascii_case k j ≡ false
      → get (insert m k v) j ≡ get m j
  -- `MetadataValue::try_from(&str).ok()` and `to_str().ok()`.
  pub value_of_str : String → Option MetadataValue
  pub to_str : MetadataValue → Option String
  pub to_str-value_of_str :
      (s : String) (v : MetadataValue) → value_of_str s ≡ some v → to_str v ≡ some s
  -- `MetadataKey::<Ascii>::from_bytes(key).is_ok()`.
  pub is_key : String → Bool
  -- `Status`, built from a code and a message.
  pub Status : Type 0
  pub status : Code → String → Status
  pub code : Status → Code
  pub metadata : Status → MetadataMap
  pub code-status : (c : Code) (message : String) → code (status c message) ≡ c

-- The part of sdkwork_utils_rust that signs and encodes; a byte vector is a list of numbers.
pub record Codec : Type 0 where
  pub base64url_encode : List ℕ → String
  pub base64url_decode : String → Option (List ℕ)
  -- The message, and the key.
  pub hmac_sha256_base64url : String → List ℕ → String
  pub verify_hmac_sha256_base64url : String → List ℕ → List ℕ → Bool
  pub sha256_hash : List ℕ → String
  pub base64url_decode-encode :
      (bytes : List ℕ) → base64url_decode (base64url_encode bytes) ≡ some bytes
  -- A signature decodes, and verifies under the key that made it.
  pub signature_bytes : String → List ℕ → List ℕ
  pub base64url_decode-hmac :
      (message : String) (key : List ℕ)
      → base64url_decode (hmac_sha256_base64url message key) ≡ some (signature_bytes message key)
  pub verify-hmac :
      (message : String) (key : List ℕ)
      → verify_hmac_sha256_base64url message key (signature_bytes message key) ≡ true

-- The part of the x509_parser crate that reads a leaf certificate; `inl` holds an error's text.
pub record X509 : Type 1 where
  pub Certificate : Type 0
  pub GeneralName : Type 0
  pub from_der : List ℕ → String ⊎ Certificate
  pub subject_alternative_name : Certificate → String ⊎ Option (List GeneralName)
  -- The text of a `GeneralName::URI`.
  pub uri : GeneralName → Option String

-- Text of sdkwork_utils_rust: `is_blank` of a given text, and `trim`.
pub record TextUtils : Type 0 where
  pub is_blank : String → Bool
  pub trim : String → String

-- The metadata names that sdkwork_rpc_core_rust declares and the framework's core re-exports.
pub record MetadataNames : Type 0 where
  pub authorization : String
  pub access_token : String
  pub request_id : String
  pub traceparent : String
  pub idempotency_key : String
  pub request_hash : String

-- The messages that the build generates from the protocol of the discovery service, by the fields
-- that the source reads. A status or an event type is what `try_from` of its number gives.
pub record DiscoveryProto : Type 1 where
  pub InstanceStatus : Type 0
  pub is_serving_status : InstanceStatus → Bool
  pub is_degraded_status : InstanceStatus → Bool
  pub ServiceInstance : Type 0
  pub endpoint : ServiceInstance → String
  pub weight : ServiceInstance → ℕ
  pub status : ServiceInstance → Option InstanceStatus
  pub WatchEventType : Type 0
  pub unspecified : WatchEventType
  pub is_heartbeat : WatchEventType → Bool
  pub is_deregistered : WatchEventType → Bool
  pub WatchMessage : Type 0
  pub revision : WatchMessage → Option ℕ
  pub event_type : WatchMessage → Option WatchEventType
  pub instance_of : WatchMessage → Option ServiceInstance

-- Files, by their paths; `inl` holds an error's text.
pub record Files : Type 1 where
  pub PathBuf : Type 0
  pub exists : PathBuf → Bool
  pub display : PathBuf → String
  pub read : PathBuf → String ⊎ List ℕ

-- The builders of tonic's transport, as functions on what they build.
pub record Transport : Type 1 where
  pub Certificate : Type 0
  pub Identity : Type 0
  pub certificate_from_pem : List ℕ → Certificate
  pub identity_from_pem : List ℕ → List ℕ → Identity
  -- `ServerTlsConfig`, and `Server::tls_config`.
  pub ServerTlsConfig : Type 0
  pub server_tls_new : ServerTlsConfig
  pub identity : Identity → ServerTlsConfig → ServerTlsConfig
  pub client_ca_root : Certificate → ServerTlsConfig → ServerTlsConfig
  pub client_auth_optional : Bool → ServerTlsConfig → ServerTlsConfig
  pub Server : Type 0
  pub server_tls_config : ServerTlsConfig → Server → String ⊎ Server
  -- `ClientTlsConfig`, `Endpoint` and `Channel`.
  pub ClientTlsConfig : Type 0
  pub client_tls_new : ClientTlsConfig
  pub domain_name : String → ClientTlsConfig → ClientTlsConfig
  pub ca_certificate : Certificate → ClientTlsConfig → ClientTlsConfig
  pub with_webpki_roots : ClientTlsConfig → ClientTlsConfig
  pub client_identity : Identity → ClientTlsConfig → ClientTlsConfig
  pub Endpoint : Type 0
  pub from_shared : String → String ⊎ Endpoint
  pub connect_timeout : ℕ → Endpoint → Endpoint
  pub http2_keep_alive_interval : ℕ → Endpoint → Endpoint
  pub keep_alive_timeout : ℕ → Endpoint → Endpoint
  pub keep_alive_while_idle : Bool → Endpoint → Endpoint
  pub tls_config : ClientTlsConfig → Endpoint → String ⊎ Endpoint
  pub Channel : Type 0
  pub connect : Endpoint → String ⊎ Channel

-- `f64`: whole numbers up to 2 ^ 53 are exact, and so is arithmetic on them that stays there.
abbrev pub exact_max : ℕ
exact_max = 2 ^ 53

pub record Doubles : Type 1 where
  pub F64 : Type 0
  -- `n as f64`, and `as_secs_f64` of a duration.
  pub of_ℕ : ℕ → F64
  pub as_secs_f64 : ℕ → F64
  pub add : F64 → F64 → F64
  pub sub : F64 → F64 → F64
  pub mul : F64 → F64 → F64
  pub min_f64 : F64 → F64 → F64
  pub ge : F64 → F64 → Bool
  pub gt : F64 → F64 → Bool
  pub as_secs_f64-secs : (s : ℕ) → s ≤ exact_max → as_secs_f64 (s * 1_000_000_000) ≡ of_ℕ s
  pub add-of : (a b : ℕ) → a + b ≤ exact_max → add (of_ℕ a) (of_ℕ b) ≡ of_ℕ (a + b)
  pub sub-of : (a b : ℕ) → b ≤ a → a ≤ exact_max → sub (of_ℕ a) (of_ℕ b) ≡ of_ℕ (a - b)
  pub mul-of :
      (a b : ℕ)
      → a ≤ exact_max
      → b ≤ exact_max
      → a * b ≤ exact_max
      → mul (of_ℕ a) (of_ℕ b) ≡ of_ℕ (a * b)
  pub min-of :
      (a b : ℕ) → a ≤ exact_max → b ≤ exact_max → min_f64 (of_ℕ a) (of_ℕ b) ≡ of_ℕ (min a b)
  pub ge-of : (a b : ℕ) → a ≤ exact_max → b ≤ exact_max → (ge (of_ℕ a) (of_ℕ b) ≡ true) ↔ (b ≤ a)
  pub gt-of : (a b : ℕ) → a ≤ exact_max → b ≤ exact_max → (gt (of_ℕ a) (of_ℕ b) ≡ true) ↔ (b < a)
