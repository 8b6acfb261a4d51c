-- ===== src/Server/Tls.antt =====
-- crates/sdkwork-rpc-server/src/lib.rs: the server's TLS configuration, built with the `tls` feature,
-- and the listener check of crates/sdkwork-rpc-server/src/security.rs.
pub mod Mutual
use Prim.Native.String.{String, ◌++◌}
use sdkwork_rpc_framework.Prelude.{
  ℕ, Bool, true, false, Option, none, some, List, ◌⊎◌, inl, inr, is_some, not, if◌then◌else◌,
}
use sdkwork_rpc_framework.External.{Files, Transport}
use sdkwork_rpc_framework.Prelude.Checked.{Checked, refused, passed, ◌>>=◌}
use sdkwork_rpc_framework.Server.Error.{ServeError, transport}
use sdkwork_rpc_framework.Server.Security.{RpcInternalServiceSecurity}

module _ (files : Files) where
  open files use {PathBuf, exists, display, read}

  pub record RpcServerTlsConfig : Type 0 where
    pub server_cert_path : PathBuf
    pub server_key_path : PathBuf
    pub client_ca_certificate_path : Option PathBuf
    pub client_auth_optional : Bool

  -- `if !path.exists() { return Err(..) }`.
  abbrev pub check_exists : String → PathBuf → Checked ServeError (Unit {0})
  check_exists name path =
      if exists path
      then passed tt
      else refused (transport ((("tls " ++ name) ++ " does not exist: ") ++ display path))

  abbrev pub check_optional : String → Option PathBuf → Checked ServeError (Unit {0})
  check_optional name none = passed tt
  check_optional name (some path) = check_exists name path

  unfoldable pub validate : RpcServerTlsConfig → Checked ServeError (Unit {0})
  validate config = do
    cert ← check_exists "server_cert_path" config.server_cert_path
    key ← check_exists "server_key_path" config.server_key_path
    check_optional "client_ca_certificate_path" config.client_ca_certificate_path

  unfoldable pub validate_mtls : RpcServerTlsConfig → Checked ServeError (Unit {0})
  validate_mtls config =
      if not (is_some config.client_ca_certificate_path)
      then refused (transport "strict mTLS requires client_ca_certificate_path")
      else if config.client_auth_optional
      then refused (transport "strict mTLS requires client_auth_optional=false")
      else validate config

  abbrev pub validate_mtls_listener :
      RpcInternalServiceSecurity → RpcServerTlsConfig → Checked ServeError (Unit {0})
  validate_mtls_listener security config = validate_mtls config

  -- `std::fs::read`, mapped.
  abbrev unread : String → PathBuf → String ⊎ List ℕ → Checked ServeError (List ℕ)
  unread name path (inl error) =
      refused
        (transport (((("failed to read tls " ++ name) ++ " ") ++ display path) ++ (": " ++ error)))
  unread name path (inr bytes) = passed bytes

  abbrev pub read_pem : String → PathBuf → Checked ServeError (List ℕ)
  read_pem name path = unread name path (read path)

  module _ (wire : Transport) where
    open wire use {
      Server, ServerTlsConfig, server_tls_new, identity, client_ca_root, client_auth_optional,
      identity_from_pem, certificate_from_pem, server_tls_config,
    }

    abbrev pub with_client_ca :
        Bool → Option PathBuf → ServerTlsConfig → Checked ServeError ServerTlsConfig
    with_client_ca optional none tls = passed tls
    with_client_ca optional (some path) tls = do
      pem ← read_pem "client ca" path
      passed (client_auth_optional optional (client_ca_root (certificate_from_pem pem) tls))

    abbrev pub configured : String ⊎ Server → Checked ServeError Server
    configured (inl error) = refused (transport error)
    configured (inr server) = passed server

    unfoldable pub apply_server_tls : Server → RpcServerTlsConfig → Checked ServeError Server
    apply_server_tls builder config = do
      valid ← validate config
      cert ← read_pem "server cert" config.server_cert_path
      key ← read_pem "server key" config.server_key_path
      tls ←
          with_client_ca config.client_auth_optional config.client_ca_certificate_path
            (identity (identity_from_pem cert key) server_tls_new)
      configured (server_tls_config tls builder)

    -- The build without the `tls` feature.
    unfoldable pub apply_server_tls_without_tls :
        Server → RpcServerTlsConfig → Checked ServeError Server
    apply_server_tls_without_tls builder config = refused (
        ServeError.transport
          "tls config supplied but the `tls` cargo feature is not enabled; enable `sdkwork-rpc-server/tls` for production TLS/mTLS")
