-- ===== src/Discovery/Registry.antt =====
-- The registry service, whose client the build generates from the discovery protocol: its requests, by
-- the fields that crates/sdkwork-rpc-discovery/src/lifecycle.rs sets, and what it answers to them.
use sdkwork_rpc_framework.Prelude.{ℕ, String, Bool, Option, ◌⊎◌}
use sdkwork_rpc_framework.Prelude.Map.{Map}
use sdkwork_rpc_framework.External.{Tonic}

-- Namespace, environment, service and instance: the whole of a retrieve or a deregister request.
pub record InstanceKey : Type 0 where
  pub namespace : String
  pub environment : String
  pub service_name : String
  pub instance_id : String

pub record RegisterInstanceRequest (InstanceStatus : Type 0) : Type 0 where
  pub key : InstanceKey
  pub endpoint : String
  pub protocol : String
  pub version : String
  pub region : String
  pub zone : String
  pub weight : ℕ
  pub priority : ℕ
  pub status : InstanceStatus
  pub metadata : Map String
  pub lease_ttl_seconds : ℕ
  pub expected_revision : Option ℕ
  pub persistent : Bool

pub record RenewLeaseRequest : Type 0 where
  pub lease_id : String
  pub lease_ttl_seconds : ℕ

-- `inl` holds an error's text, or the status of a call that failed.
pub record Registry (tonic : Tonic) : Type 1 where
  pub Endpoint : Type 0
  pub Channel : Type 0
  pub from_shared : String → String ⊎ Endpoint
  pub connect_endpoint : Endpoint → String ⊎ Channel
  pub status_text : tonic.Status → String
  pub InstanceStatus : Type 0
  pub serving : InstanceStatus
  -- The revision of the instance of the answer, if it has one.
  pub retrieve_instance : Channel → InstanceKey → tonic.MetadataMap → tonic.Status ⊎ Option ℕ
  -- The lease id of the answer.
  pub register_instance :
      Channel → RegisterInstanceRequest InstanceStatus → tonic.MetadataMap → tonic.Status ⊎ String
  pub renew_lease : Channel → RenewLeaseRequest → tonic.MetadataMap → tonic.Status ⊎ Unit {0}
  pub deregister_instance : Channel → InstanceKey → tonic.MetadataMap → tonic.Status ⊎ Unit {0}
