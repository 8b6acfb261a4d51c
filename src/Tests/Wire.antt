-- ===== src/Tests/Wire.antt =====
-- A TLS listener and a connection over small stand-ins for files and tonic's transport: the theorems on
-- crates/sdkwork-rpc-server/src/lib.rs and crates/sdkwork-rpc-client/src/transport.rs.
use Prim.Native.String.{String, len}
use sdkwork_rpc_framework.Prelude.{
  ℕ, ◌≡◌, refl, true, false, none, some, List, [], ◌∷◌, inr, if◌then◌else◌, ◌==◌,
}
use sdkwork_rpc_framework.External.{Files, Transport, TextUtils}
use sdkwork_rpc_framework.Prelude.Checked.{passed}
use sdkwork_rpc_framework.Server.Security.{RpcInternalServiceSecurity}
use sdkwork_rpc_framework.Server.Tls.{
  RpcServerTlsConfig, validate, validate_mtls, validate_mtls_listener, apply_server_tls,
}
use sdkwork_rpc_framework.Server.Tls.Mutual.{RequiresClients, apply_server_tls-RequiresClients}
use sdkwork_rpc_framework.Client.Resolver.{NameResolver, resolve_static}
use sdkwork_rpc_framework.Client.LoadBalance.{round_robin}
use sdkwork_rpc_framework.Client.Transport.{default_channel_config, resolve_and_connect}
use sdkwork_rpc_framework.Client.Transport.Choice.{IsAnswer, resolve_and_connect-IsAnswer}
use sdkwork_rpc_framework.Tests.Identity.{policy}

-- Every file exists but the one at the empty path, and holds its path's length.
abbrev pub disk : Files
disk = record {
  PathBuf = String;
  exists = λ path. if len path == 0 then false else true;
  display = λ path. path;
  read = λ path. inr (len path ∷ []);
}

-- The steps of a build, as a list of texts; a channel is the URI that it goes to.
abbrev pub wire : Transport
wire = record {
  Certificate = List ℕ;
  Identity = List ℕ × List ℕ;
  certificate_from_pem = λ pem. pem;
  identity_from_pem = λ cert key. (cert, key);
  ServerTlsConfig = List String;
  server_tls_new = [];
  identity = λ i tls. "identity" ∷ tls;
  client_ca_root = λ ca tls. "client ca" ∷ tls;
  client_auth_optional = λ optional tls. (if optional then "optional" else "required") ∷ tls;
  Server = List String;
  server_tls_config = λ tls server. inr tls;
  ClientTlsConfig = List String;
  client_tls_new = [];
  domain_name = λ name tls. name ∷ tls;
  ca_certificate = λ ca tls. "ca" ∷ tls;
  with_webpki_roots = λ tls. "webpki" ∷ tls;
  client_identity = λ i tls. "identity" ∷ tls;
  Endpoint = String;
  from_shared = λ uri. inr uri;
  connect_timeout = λ t e. e;
  http2_keep_alive_interval = λ t e. e;
  keep_alive_timeout = λ t e. e;
  keep_alive_while_idle = λ b e. e;
  tls_config = λ tls e. inr e;
  Channel = String;
  connect = λ e. inr e;
}

abbrev utils : TextUtils
utils = record { is_blank = λ s. len s == 0; trim = λ s. s }

abbrev security : RpcInternalServiceSecurity
security = record { service_identity_policy = policy; caller_context_verifier = none }

abbrev config : RpcServerTlsConfig disk
config = record {
  server_cert_path = "tls.crt";
  server_key_path = "tls.key";
  client_ca_certificate_path = some "ca.crt";
  client_auth_optional = false;
}

abbrev hard_tls : List String
hard_tls = "required" ∷ "client ca" ∷ "identity" ∷ []

accepted : validate_mtls_listener disk security config ≡ passed tt
unfolding validate_mtls validate
accepted = refl

built : apply_server_tls disk wire [] config ≡ passed hard_tls
unfolding apply_server_tls validate
built = refl

apply_server_tls-RequiresClients_example : RequiresClients disk wire config [] hard_tls
apply_server_tls-RequiresClients_example =
    apply_server_tls-RequiresClients disk wire security config [] hard_tls accepted built

abbrev orders : NameResolver
orders = resolve_static (record {
  endpoints =
      record { endpoint = "grpc://a"; weight = 1; healthy = false }
      ∷ record { endpoint = "grpcs://b"; weight = 1; healthy = true }
      ∷ [];
})

resolve_and_connect-IsAnswer_example :
    IsAnswer disk wire utils
      (default_channel_config disk wire utils)
      (orders "orders")
      (resolve_and_connect disk wire utils orders "orders" round_robin
        (record { next = 7 })
        (default_channel_config disk wire utils)).1
resolve_and_connect-IsAnswer_example =
    resolve_and_connect-IsAnswer disk wire utils orders "orders" round_robin (record { next = 7 })
      (default_channel_config disk wire utils)
