-- ===== src/Tests/Registration.antt =====
-- An instance that registers with a small registry, and its renew loop: the theorems on
-- crates/sdkwork-rpc-discovery/src/lifecycle.rs.
use sdkwork_rpc_framework.Prelude.Text.{strip_prefix}
use sdkwork_rpc_framework.Prelude.Map.{lookup}
use sdkwork_rpc_framework.Discovery.Endpoint.{normalize_http_endpoint, require_non_blank}
use Prim.Native.String.{String, len}
use sdkwork_rpc_framework.Prelude.{
  ◌≤◌, suc, ◌≡◌, refl, Bool, true, false, none, some, List, [], ◌∷◌, ◌++◌, inr, ◌==◌, drop, length,
  arith,
}
use sdkwork_rpc_framework.Prelude.Rust.{from_secs}
use sdkwork_rpc_framework.Prelude.Checked.{passed}
use sdkwork_rpc_framework.External.{TextUtils}
use sdkwork_rpc_framework.Discovery.Headers.{Draws, unsigned_registry_write_metadata}
use sdkwork_rpc_framework.Discovery.Registry.{Registry}
use sdkwork_rpc_framework.Discovery.Registration.{
  resolve_expected_revision, connect, require_non_empty, require_all, validate,
  DiscoveryInstanceConfig, DiscoveryInstanceHandle, register, renew_interval_of,
}
use sdkwork_rpc_framework.Discovery.Registration.Contract.{IsRegistered, register-IsRegistered}
use sdkwork_rpc_framework.Discovery.Renew.{Round, default_renew_config, renew_loop}
use sdkwork_rpc_framework.Discovery.Renew.Failures.{
  reports_of, warnings_then_alerts, renew_loop-failures,
}
use sdkwork_rpc_framework.Discovery.Renew.Lease.{slept, four-attempts-within-lease}
use sdkwork_rpc_framework.Tests.Instances.{numbered}
use sdkwork_rpc_framework.Tests.Outbound.{names}

abbrev utils : TextUtils
utils = record { is_blank = λ s. len s == 0; trim = λ s. s }

-- A channel is its URI; the registry knows the instance at revision 4.
abbrev pub registry : Registry numbered
registry = record {
  Endpoint = String;
  Channel = String;
  from_shared = λ uri. inr uri;
  connect_endpoint = λ endpoint. inr endpoint;
  status_text = λ status. "status";
  InstanceStatus = Unit {0};
  serving = tt;
  retrieve_instance = λ channel key metadata. inr (some 4);
  register_instance = λ channel request metadata. inr "lease-1";
  renew_lease = λ channel request metadata. inr tt;
  deregister_instance = λ channel key metadata. inr tt;
}

abbrev config : DiscoveryInstanceConfig
config = record {
  discovery_endpoint = "127.0.0.1:19090";
  namespace = "sdkwork";
  environment = "development";
  service_name = "orders";
  instance_id = "orders-1";
  advertised_endpoint = "grpc://127.0.0.1:50051";
  protocol = "grpc";
  version = "0.1.0";
  region = "local";
  zone = "local";
  lease_ttl_seconds = 30;
  subject_id = "orders-host";
  metadata = ("rpc_surface", "app") ∷ [];
  revision_cas_on_register = true;
  expected_revision = none;
}

abbrev pub draws : Draws
draws = record { request_id = "r"; trace_id = "t"; parent = 254 }

handle : DiscoveryInstanceHandle numbered registry
handle = record {
  client = "http://127.0.0.1:19090";
  config = config;
  lease_id = "lease-1";
  renew_interval = from_secs 10;
  metadata_template = unsigned_registry_write_metadata names "orders-host" draws;
}

registered : register numbered registry utils names config draws draws ≡ passed handle
unfolding register validate require_all require_non_empty require_non_blank lookup connect
    resolve_expected_revision handle normalize_http_endpoint strip_prefix
registered = refl

register-IsRegistered_example : IsRegistered numbered registry utils names config draws draws handle
register-IsRegistered_example =
    register-IsRegistered numbered registry utils names config draws draws handle registered

-- A renewal that succeeds or fails, with the longest sleep.
abbrev round : Bool → Round
round renews = record { draw = λ base. base; renews = renews }

abbrev failing : List Round
failing = round false ∷ round false ∷ round false ∷ round false ∷ []

renew_loop-failures_example :
    let earlier = renew_loop default_renew_config (from_secs 10) 0 (round false ∷ []) in
    let all =
      renew_loop default_renew_config
        (from_secs 10)
        0
        ((round false ∷ []) ++ round true ∷ failing) in
    (all.0 ≡ length failing)
    × (drop (suc (length earlier.1)) (reports_of all) ≡ warnings_then_alerts 2 (length failing))
renew_loop-failures_example =
    renew_loop-failures default_renew_config (from_secs 10) 0 (round false ∷ []) (round true)
      failing refl (refl, (refl, (refl, (refl, tt)))) (omega arith)

four-attempts-within-lease_example :
    slept
      (renew_loop default_renew_config
        (renew_interval_of 30)
        0
        (round false ∷ round false ∷ round false ∷ round true ∷ [])).1
    ≤ from_secs 30
four-attempts-within-lease_example =
    four-attempts-within-lease 30 (round false) (round false) (round false) (round true)
      (omega arith)
      (λ base. omega arith, (λ base. omega arith, (λ base. omega arith, (λ base. omega arith, tt))))
      (refl, (refl, (refl, tt)))
