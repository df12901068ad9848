-- ===== src/Shared/Tls/Laws.antt =====
-- Which bundles give a configuration.
use secure_net.Base.{◌≡◌, inl, inr, List, arith}
use secure_net.Base.Result.{ok, Result-cases}
use secure_net.External.Rustls.{Rustls}
use secure_net.Shared.Models.{CertBundle}
use secure_net.Shared.Tls.{parse_cert_chain, parse_private_key, build_root_store, server_config}

module _ (tls : Rustls) where
  -- A bundle that makes a configuration with client authentication has a chain and a key that parse
  -- and a CA text whose certificates all go into a store, from which the verifier of the clients is
  -- made.
  pub server_config_lem :
      (bundle : CertBundle) (config : tls.ServerConfig)
      → server_config tls bundle ≡ ok config
      → (chain : List tls.CertificateDer) × (key : tls.PrivateKeyDer) × (store : tls.RootCertStore)
        × (verifier : tls.ClientCertVerifier) × (parse_cert_chain tls bundle.cert_pem ≡ ok chain)
        × (parse_private_key tls bundle.key_pem ≡ ok key)
        × (build_root_store tls bundle.ca_pem ≡ ok store)
        × (tls.client_cert_verifier store ≡ ok verifier)
        × (tls.server_with_client_auth verifier chain key ≡ ok config)
  unfolding server_config
  server_config_lem bundle config h = elim (Result-cases (parse_cert_chain tls bundle.cert_pem)) [
    | inr (e, bad) ↦ absurd (ground arith)
    | inl (chain, parsed) ↦ elim (Result-cases (parse_private_key tls bundle.key_pem)) [
      | inr (e, bad) ↦ absurd (ground arith)
      | inl (key, parsed') ↦ elim (Result-cases (build_root_store tls bundle.ca_pem)) [
        | inr (e, bad) ↦ absurd (ground arith)
        | inl (store, stored) ↦ elim (Result-cases (tls.client_cert_verifier store)) [
          | inr (e, bad) ↦ absurd (ground arith)
          | inl (verifier, made) ↦
              (chain, key, store, verifier, parsed, parsed', stored, made, ground arith)
        ]
      ]
    ]
  ]
