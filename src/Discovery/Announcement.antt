-- ===== src/Discovery/Announcement.antt =====
-- crates/sdkwork-rpc-discovery/src/metadata.rs: what a service announces beside its endpoint.
use Prim.Native.String.{String, ◌++◌}
use sdkwork_rpc_framework.Prelude.{Option, none, some, List, [], ◌∷◌}
use sdkwork_rpc_framework.Prelude.Map.{Map, insert}

pub record RegistrationMetadataInput : Type 0 where
  pub rpc_surface : String
  pub sdk_family : String
  pub domain : String
  pub proto_packages : List String
  pub operation_manifest_ref : String
  pub deployment_profile : Option String
  pub runtime_target : Option String

-- `join(",")`.
unfoldable pub join : List String → String
join [] = ""
join (s ∷ []) = s
join (s ∷ t ∷ rest) = (s ++ ",") ++ join (t ∷ rest)

abbrev insert_some : String → Option String → Map String → Map String
insert_some key none metadata = metadata
insert_some key (some value) metadata = insert key value metadata

unfoldable pub build_registration_metadata : RegistrationMetadataInput → Map String
build_registration_metadata input =
    let metadata =
      ("rpc_surface", input.rpc_surface)
      ∷ ("sdk_family", input.sdk_family)
      ∷ ("domain", input.domain)
      ∷ ("proto_packages", join input.proto_packages)
      ∷ ("operation_manifest_ref", input.operation_manifest_ref)
      ∷ [] in
    insert_some "runtime_target" input.runtime_target
      (insert_some "deployment_profile" input.deployment_profile metadata)
