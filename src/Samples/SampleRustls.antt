-- ===== src/Samples/SampleRustls.antt =====
-- TLS over texts, where every text is one certificate and one key.
use secure_net.Base.{String, List, [], ◌∷◌}
use secure_net.Base.Result.{ok}
use secure_net.External.Rustls.{Rustls}

abbrev pub sample_rustls : Rustls
sample_rustls = record {
  CertificateDer = String;
  PrivateKeyDer = String;
  RootCertStore = List String;
  ClientCertVerifier = List String;
  ServerConfig = List String × List String;
  ClientConfig = List String × List String;
  certs = λ pem. ok pem ∷ [];
  pkcs8_private_keys = λ pem. ok pem ∷ [];
  empty = [];
  add = λ cert store. ok (cert ∷ store);
  client_cert_verifier = ok;
  server_with_client_auth = λ roots chain key. ok (roots, chain);
  server_with_no_client_auth = λ chain key. ok ([], chain);
  client_with_auth_cert = λ roots chain key. ok (roots, chain);
}
