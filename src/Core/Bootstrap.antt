-- ===== src/Core/Bootstrap.antt =====
-- crates/sdkwork-rpc-core/src/bootstrap.rs: the stages of a start and of a shutdown, by name.
use sdkwork_rpc_framework.Prelude.{String, List, [], ◌∷◌}

abbrev pub stage_validate_rpc_contracts : String
stage_validate_rpc_contracts = "validate-rpc-contracts"

abbrev pub stage_initialize_rpc_framework : String
stage_initialize_rpc_framework = "initialize-rpc-framework"

abbrev pub stage_bind_rpc_services : String
stage_bind_rpc_services = "bind-rpc-services"

abbrev pub stage_register_discovery_instance : String
stage_register_discovery_instance = "register-discovery-instance"

abbrev pub stage_start_discovery_renew_loop : String
stage_start_discovery_renew_loop = "start-discovery-renew-loop"

abbrev pub stage_drain_rpc_servers : String
stage_drain_rpc_servers = "drain-rpc-servers"

abbrev pub stage_deregister_discovery_instance : String
stage_deregister_discovery_instance = "deregister-discovery-instance"

abbrev pub stage_stop_discovery_renew_loop : String
stage_stop_discovery_renew_loop = "stop-discovery-renew-loop"

abbrev pub bootstrap_stages : List String
bootstrap_stages =
    stage_validate_rpc_contracts ∷ stage_initialize_rpc_framework ∷ stage_bind_rpc_services
    ∷ stage_register_discovery_instance ∷ stage_start_discovery_renew_loop ∷ []

abbrev pub shutdown_stages : List String
shutdown_stages =
    stage_drain_rpc_servers ∷ stage_deregister_discovery_instance ∷ stage_stop_discovery_renew_loop
    ∷ []
