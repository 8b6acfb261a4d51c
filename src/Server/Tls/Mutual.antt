-- ===== src/Server/Tls/Mutual.antt =====
-- Listeners that crates/sdkwork-rpc-server/src/security.rs accepts, as lib.rs builds them.
use Prim.Native.String.{String}
use sdkwork_rpc_framework.Prelude.{ℕ, false, ◌≡◌, some, List, ◌⊎◌, inl, inr, arith}
use sdkwork_rpc_framework.External.{Files, Transport}
use sdkwork_rpc_framework.Prelude.Checked.{passed, of_passed, passed_injective, ◌>>=◌}
use sdkwork_rpc_framework.Server.Security.{RpcInternalServiceSecurity}
use sdkwork_rpc_framework.Server.Tls.{
  RpcServerTlsConfig, validate, validate_mtls, validate_mtls_listener, read_pem, with_client_ca,
  configured, apply_server_tls,
}

module _ (files : Files) where
  open files use {PathBuf, exists, read}

  validate_mtls-eq-passed :
      (config : RpcServerTlsConfig files)
      → validate_mtls files config ≡ passed tt
      → (config.client_auth_optional ≡ false)
        × (ca : PathBuf) × (config.client_ca_certificate_path ≡ some ca)
  unfolding validate_mtls
  validate_mtls-eq-passed config e = ground arith

  read_pem-eq-passed :
      (name : String) (path : PathBuf) {bytes : List ℕ}
      → read_pem files name path ≡ passed bytes
      → read path ≡ inr bytes
  read_pem-eq-passed name path e = ground arith

  module _ (wire : Transport) where
    open wire use {
      Server, ServerTlsConfig, server_tls_new, identity, client_ca_root, client_auth_optional,
      identity_from_pem, certificate_from_pem, server_tls_config,
    }

    -- A server that requires a client certificate of the configured authority, and what it was
    -- built from.
    pub record RequiresClients (config : RpcServerTlsConfig files) (builder server : Server)
        : Type 0 where
      pub cert : List ℕ
      pub key : List ℕ
      pub ca_path : PathBuf
      pub ca : List ℕ
      pub cert_read : read config.server_cert_path ≡ inr cert
      pub key_read : read config.server_key_path ≡ inr key
      pub ca_set : config.client_ca_certificate_path ≡ some ca_path
      pub ca_read : read ca_path ≡ inr ca
      pub built :
          server_tls_config
            (client_auth_optional false (
              client_ca_root
                (certificate_from_pem ca)
                (identity (identity_from_pem cert key) server_tls_new)))
            builder
          ≡ inr server

    configured-eq-passed :
        (made : String ⊎ Server) {server : Server}
        → configured files wire made ≡ passed server
        → made ≡ inr server
    configured-eq-passed (inl error) e = cc
    configured-eq-passed (inr server) e = cc

    with_client_ca-RequiresClients :
        (config : RpcServerTlsConfig files) (builder server : Server) (cert key : List ℕ)
        (ca_path : PathBuf)
        → read config.server_cert_path ≡ inr cert
        → read config.server_key_path ≡ inr key
        → config.client_ca_certificate_path ≡ some ca_path
        → config.client_auth_optional ≡ false
        → (with_client_ca files wire config.client_auth_optional config.client_ca_certificate_path
              (identity (identity_from_pem cert key) server_tls_new)
            >>= λ tls. configured files wire (server_tls_config tls builder))
          ≡ passed server
        → RequiresClients config builder server
    with_client_ca-RequiresClients config builder server cert key ca_path c k set hard e =
        of_passed (with_client_ca files wire false (some ca_path) _) _ (rw (set, hard) at e)
          λ tls q e0. of_passed (read_pem files "client ca" ca_path) _ q λ ca r q0. record {
            cert = cert;
            key = key;
            ca_path = ca_path;
            ca = ca;
            cert_read = c;
            key_read = k;
            ca_set = set;
            ca_read = read_pem-eq-passed "client ca" ca_path r;
            built = rw (passed_injective q0) (configured-eq-passed _ e0);
          }

    -- A listener configuration that the internal security accepts builds only a server that requires
    -- a client certificate: of the certificate authority that was read from the configured file,
    -- with client authentication not optional.
    pub apply_server_tls-RequiresClients :
        (security : RpcInternalServiceSecurity) (config : RpcServerTlsConfig files)
        (builder server : Server)
        → validate_mtls_listener files security config ≡ passed tt
        → apply_server_tls files wire builder config ≡ passed server
        → RequiresClients config builder server
    unfolding apply_server_tls
    apply_server_tls-RequiresClients security config builder server accepted e =
        let (hard, ca_path, set) = validate_mtls-eq-passed config accepted in
        of_passed (validate files config) _ e λ valid q0 e0.
          of_passed (read_pem files "server cert" config.server_cert_path) _ e0 λ cert q1 e1.
            of_passed (read_pem files "server key" config.server_key_path) _ e1 λ key q2 e2.
              with_client_ca-RequiresClients config builder server cert key ca_path
                (read_pem-eq-passed "server cert" config.server_cert_path q1)
                (read_pem-eq-passed "server key" config.server_key_path q2) set hard e2
