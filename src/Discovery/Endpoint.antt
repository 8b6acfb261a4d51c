-- ===== src/Discovery/Endpoint.antt =====
-- crates/sdkwork-rpc-discovery/src/endpoint.rs, and the default names of src/lifecycle.rs, where the text
-- of a UUID is an argument.
use Prim.Native.String.{String, ◌++◌}
use sdkwork_rpc_framework.Prelude.{◌||◌, ◌⊎◌, inl, inr, if◌then◌else◌}
use sdkwork_rpc_framework.Prelude.Text.{starts_with}
use sdkwork_rpc_framework.External.{TextUtils}

abbrev pub default_instance_id : String → String → String
default_instance_id service_name uuid = (service_name ++ "-") ++ uuid

module _ (utils : TextUtils) where
  unfoldable pub normalize_http_endpoint : String → String
  normalize_http_endpoint endpoint =
      let trimmed = utils.trim endpoint in
      if starts_with trimmed "http://" || starts_with trimmed "https://"
      then trimmed
      else "http://" ++ trimmed

  unfoldable pub normalize_grpc_endpoint : String → String
  normalize_grpc_endpoint bind_addr =
      let trimmed = utils.trim bind_addr in
      if starts_with trimmed "grpc://" || starts_with trimmed "grpcs://"
      then trimmed
      else "grpc://" ++ trimmed

  abbrev pub grpc_advertised_endpoint : String → String
  grpc_advertised_endpoint bind_addr = normalize_grpc_endpoint bind_addr

  -- `inl` holds the error's text.
  unfoldable pub require_non_blank : String → String → String ⊎ Unit {0}
  require_non_blank value field =
      if utils.is_blank value then inl (field ++ " is required") else inr tt
