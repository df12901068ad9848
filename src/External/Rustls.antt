-- ===== src/External/Rustls.antt =====
-- The `rustls` and `rustls_pemfile` crates.
use secure_net.Base.{String, List}
use secure_net.Base.Result.{Result}

pub record Rustls : Type 1 where
  pub CertificateDer : Type 0
  pub PrivateKeyDer : Type 0
  pub RootCertStore : Type 0
  pub ClientCertVerifier : Type 0
  pub ServerConfig : Type 0
  pub ClientConfig : Type 0
  -- The items of a PEM text, in order.
  pub certs : String → List (Result CertificateDer String)
  pub pkcs8_private_keys : String → List (Result PrivateKeyDer String)
  pub empty : RootCertStore
  pub add : CertificateDer → RootCertStore → Result RootCertStore String
  pub client_cert_verifier : RootCertStore → Result ClientCertVerifier String
  pub server_with_client_auth :
      ClientCertVerifier → List CertificateDer → PrivateKeyDer → Result ServerConfig String
  pub server_with_no_client_auth : List CertificateDer → PrivateKeyDer → Result ServerConfig String
  pub client_with_auth_cert :
      RootCertStore → List CertificateDer → PrivateKeyDer → Result ClientConfig String
