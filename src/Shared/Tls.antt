-- ===== src/Shared/Tls.antt =====
-- shared/src/tls.rs: TLS configurations from a bundle.
pub mod Laws
use secure_net.Base.{String, ◌<>◌, List, [], ◌∷◌}
use secure_net.Base.Result.{Result, ok, err, map_err, ◌>>=◌}
use secure_net.External.Rustls.{Rustls}
use secure_net.Shared.Errors.{AppError, tls_config, cert_parse}
use secure_net.Shared.Models.{CertBundle}

-- `collect::<Result<Vec<_>, _>>()`: the first error, or all the values.
abbrev pub collect : {A E : Type 0} → List (Result A E) → Result (List A) E
collect [] = ok []
collect (r ∷ rs) = do a ← r; rest ← collect rs; ok (a ∷ rest)

module _ (tls : Rustls) where
  unfoldable pub parse_cert_chain : String → Result (List tls.CertificateDer) AppError
  parse_cert_chain pem = map_err cert_parse (collect (tls.certs pem))

  first_key : List (Result tls.PrivateKeyDer String) → Result tls.PrivateKeyDer AppError
  first_key [] = err (cert_parse "no private key found in PEM")
  first_key (r ∷ _) = map_err cert_parse r

  unfoldable pub parse_private_key : String → Result tls.PrivateKeyDer AppError
  unfolding first_key
  parse_private_key pem = first_key (tls.pkcs8_private_keys pem)

  abbrev pub add_all :
      List tls.CertificateDer → tls.RootCertStore → Result tls.RootCertStore AppError
  add_all [] store = ok store
  add_all (cert ∷ certs) store = do
    store' ← map_err cert_parse (tls.add cert store)
    add_all certs store'

  unfoldable pub build_root_store : String → Result tls.RootCertStore AppError
  build_root_store ca_pem = do
    certs ← map_err cert_parse (collect (tls.certs ca_pem))
    add_all certs tls.empty

  unfoldable pub server_config : CertBundle → Result tls.ServerConfig AppError
  server_config bundle = do
    cert_chain ← parse_cert_chain bundle.cert_pem
    private_key ← parse_private_key bundle.key_pem
    root_store ← build_root_store bundle.ca_pem
    client_verifier ← map_err tls_config (tls.client_cert_verifier root_store)
    map_err tls_config (tls.server_with_client_auth client_verifier cert_chain private_key)

  unfoldable pub gateway_server_config : CertBundle → Result tls.ServerConfig AppError
  gateway_server_config bundle = do
    cert_chain ← parse_cert_chain bundle.cert_pem
    private_key ← parse_private_key bundle.key_pem
    map_err tls_config (tls.server_with_no_client_auth cert_chain private_key)

  unfoldable pub client_config : CertBundle → Result tls.ClientConfig AppError
  client_config bundle = do
    cert_chain ← parse_cert_chain (bundle.cert_pem <> bundle.ca_pem)
    private_key ← parse_private_key bundle.key_pem
    root_store ← build_root_store bundle.ca_pem
    map_err tls_config (tls.client_with_auth_cert root_store cert_chain private_key)
