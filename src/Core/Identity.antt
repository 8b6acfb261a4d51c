-- ===== src/Core/Identity.antt =====
-- crates/sdkwork-rpc-core/src/identity.rs: the URI that names a method.
use Prim.Native.String.{String, ◌++◌}

pub record RpcIdentityParts : Type 0 where
  pub namespace : String
  pub environment : String
  pub rpc_surface : String
  pub proto_package : String
  pub service : String
  pub method : String
  pub operation_id : String

unfoldable pub build_rpc_identity_uri : RpcIdentityParts → String
build_rpc_identity_uri parts =
    "sdkwork-rpc://" ++ parts.namespace ++ "/" ++ parts.environment ++ "/" ++ parts.rpc_surface
    ++ "/" ++ parts.proto_package ++ "/" ++ parts.service ++ "/" ++ parts.method ++ "?operationId="
    ++ parts.operation_id
