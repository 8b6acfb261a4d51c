-- ===== src/Client/Tls.antt =====
-- crates/sdkwork-rpc-client/src/tls.rs, built with the `tls` feature.
use Prim.Native.String.{String, ◌++◌}
use sdkwork_rpc_framework.Prelude.{ℕ, Option, none, some, List, ◌⊎◌, inl, inr, if◌then◌else◌}
use sdkwork_rpc_framework.External.{Files, Transport}
use sdkwork_rpc_framework.Core.Error.{Result, ok, err, configuration, ◌>>=◌, ◌>>◌}

module _ (files : Files) where
  open files use {PathBuf, exists, display, read}

  pub record RpcTlsConfig : Type 0 where
    pub server_ca_certificate_path : Option PathBuf
    pub client_cert_path : Option PathBuf
    pub client_key_path : Option PathBuf
    pub domain : Option String

  abbrev pub server_verified : RpcTlsConfig
  server_verified = record {
    server_ca_certificate_path = none;
    client_cert_path = none;
    client_key_path = none;
    domain = none;
  }

  abbrev pub with_server_ca : RpcTlsConfig → PathBuf → RpcTlsConfig
  with_server_ca config path = record config { server_ca_certificate_path = some path }

  abbrev pub with_client_identity : RpcTlsConfig → PathBuf → PathBuf → RpcTlsConfig
  with_client_identity config cert_path key_path = record config {
    client_cert_path = some cert_path;
    client_key_path = some key_path;
  }

  abbrev pub with_domain : RpcTlsConfig → String → RpcTlsConfig
  with_domain config domain = record config { domain = some domain }

  abbrev check_exists : String → PathBuf → Result (Unit {0})
  check_exists name path =
      if exists path
      then ok tt
      else err (configuration ((("tls " ++ name) ++ " does not exist: ") ++ display path))

  abbrev check_ca : Option PathBuf → Result (Unit {0})
  check_ca none = ok tt
  check_ca (some path) = check_exists "server_ca_certificate_path" path

  abbrev check_pair : Option PathBuf → Option PathBuf → Result (Unit {0})
  check_pair (some cert) (some key) =
      check_exists "client_cert_path" cert >> check_exists "client_key_path" key
  check_pair (some cert) none = err (
      configuration (
        ("tls client_cert_path is set but client_key_path is missing; "
          ++ "both must be provided for mTLS (cert=")
        ++ (display cert ++ ")")))
  check_pair none (some key) = err (
      configuration (
        ("tls client_key_path is set but client_cert_path is missing; "
          ++ "both must be provided for mTLS (key=")
        ++ (display key ++ ")")))
  check_pair none none = ok tt

  unfoldable pub validate : RpcTlsConfig → Result (Unit {0})
  validate config =
      check_ca config.server_ca_certificate_path
      >> check_pair config.client_cert_path config.client_key_path

  -- `std::fs::read`, mapped.
  abbrev unread : String → PathBuf → String ⊎ List ℕ → Result (List ℕ)
  unread name path (inl error) = err (
      configuration (((("failed to read tls " ++ name) ++ " ") ++ display path) ++ (": " ++ error)))
  unread name path (inr bytes) = ok bytes

  abbrev read_pem : String → PathBuf → Result (List ℕ)
  read_pem name path = unread name path (read path)

  module _ (wire : Transport) where
    open wire use {
      ClientTlsConfig, client_tls_new, domain_name, ca_certificate, with_webpki_roots,
      client_identity, identity_from_pem, certificate_from_pem,
    }

    abbrev named : Option String → ClientTlsConfig → ClientTlsConfig
    named none tls = tls
    named (some domain) tls = domain_name domain tls

    abbrev trusting : Option PathBuf → ClientTlsConfig → Result ClientTlsConfig
    trusting none tls = ok (with_webpki_roots tls)
    trusting (some ca_path) tls = do
      pem ← read_pem "ca certificate" ca_path
      ok (ca_certificate (certificate_from_pem pem) tls)

    abbrev identified : Option PathBuf → Option PathBuf → ClientTlsConfig → Result ClientTlsConfig
    identified (some cert_path) (some key_path) tls = do
      cert ← read_pem "client cert" cert_path
      key ← read_pem "client key" key_path
      ok (client_identity (identity_from_pem cert key) tls)
    identified _ _ tls = ok tls

    unfoldable pub build_client_tls_config : RpcTlsConfig → Result ClientTlsConfig
    build_client_tls_config config = do
      validate config
      tls ← trusting config.server_ca_certificate_path (named config.domain client_tls_new)
      identified config.client_cert_path config.client_key_path tls

    -- The build without the `tls` feature.
    unfoldable pub build_client_tls_config_without_tls : RpcTlsConfig → Result ClientTlsConfig
    build_client_tls_config_without_tls config = err (
        configuration
          "tls config supplied but the `tls` cargo feature is not enabled; enable `sdkwork-rpc-client/tls` for production TLS/mTLS")
