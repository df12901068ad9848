-- ===== src/Vault/Issuer.antt =====
-- vault-service/src/issuer.rs: certificate issuance.
pub mod Laws
use secure_net.Base.{ℕ, ◌+◌, ◌*◌, ◌%◌, ◌^◌, String, ◌<>◌, some, List, [], ◌∷◌, ◌++◌, format_016x}
use secure_net.Base.Result.{Result, ok, err, map_err, ◌>>=◌}
use secure_net.External.Rcgen.{
  Rcgen, CertificateParams, San, ip_address, common_name, organization_name, no_ca,
  ca_unconstrained, digital_signature, key_encipherment, key_cert_sign, crl_sign, server_auth,
  client_auth,
}
use secure_net.Shared.Models.{CertBundle, DateTime, nanos_per_sec}

abbrev pub cert_ttl_secs : ℕ
cert_ttl_secs = 300

-- What one call reads from its surroundings: two clocks and the entropy of the leaf key.
pub record IssueEnv : Type 0 where
  pub now : DateTime
  pub utc_now : DateTime
  pub entropy : ℕ

-- `AtomicU64::fetch_add(1)` wraps.
abbrev pub next_u64 : ℕ → ℕ
next_u64 n = (n + 1) % 2 ^ 64

module _ (rcgen : Rcgen) where
  pub record Issuer : Type 0 where
    pub ca_cert_pem : String
    pub ca_key_pair : rcgen.KeyPair

  unfoldable pub from_pem : String → String → Result Issuer String
  from_pem ca_cert_pem ca_key_pem = do
    ca_key_pair ← map_err (λ _. "failed to parse CA private key") (rcgen.key_from_pem ca_key_pem)
    ok (record { ca_cert_pem = ca_cert_pem; ca_key_pair = ca_key_pair })

  abbrev pub leaf_names : String → List String
  leaf_names service_name =
      service_name ∷ (service_name <> ".securenet.svc.cluster.local") ∷ "localhost" ∷ []

  -- The fields that `issue` sets on the parameters which `CertificateParams::new` made.
  unfoldable pub leaf_params : String → ℕ → DateTime → CertificateParams → CertificateParams
  leaf_params service_name serial now params =
      let named =
        rcgen.push_name params.distinguished_name common_name (service_name <> ".securenet") in
      record {
        subject_alt_names = params.subject_alt_names ++ ip_address (127 ∷ 0 ∷ 0 ∷ 1 ∷ []) ∷ [];
        distinguished_name = rcgen.push_name named organization_name "SecureNet";
        not_before = now;
        not_after = now + cert_ttl_secs * nanos_per_sec;
        is_ca = no_ca;
        key_usages = digital_signature ∷ key_encipherment ∷ [];
        extended_key_usages = server_auth ∷ client_auth ∷ [];
        serial_number = some serial;
      }

  -- `issue`, once the counter has been read.
  unfoldable pub issue_with : Issuer → ℕ → IssueEnv → String → Result CertBundle String
  unfolding leaf_params
  issue_with issuer serial env service_name = do
    base ← map_err (λ _. "failed to build cert params") (rcgen.new_params (leaf_names service_name))
    let params = leaf_params service_name serial env.now base
    leaf_key ← map_err (λ _. "failed to generate leaf key pair") (rcgen.generate_key env.entropy)
    ca_params ←
        map_err (λ _. "failed to parse CA cert PEM") (rcgen.from_ca_cert_pem issuer.ca_cert_pem)
    ca_cert ←
        map_err (λ _. "failed to reconstruct CA cert")
          (rcgen.self_signed ca_params issuer.ca_key_pair)
    leaf_cert ←
        map_err (λ _. "CA signing failed")
          (rcgen.signed_by params leaf_key ca_cert issuer.ca_key_pair)
    ok (record {
      cert_pem = rcgen.pem leaf_cert;
      key_pem = rcgen.serialize_pem leaf_key;
      ca_pem = issuer.ca_cert_pem;
      expires_at = env.utc_now + cert_ttl_secs * nanos_per_sec;
      serial = format_016x serial;
    })

  -- The counter moves on whether or not the certificate is made.
  unfoldable pub issue : Issuer → ℕ → IssueEnv → String → Result CertBundle String × ℕ
  issue issuer serial_counter env service_name =
      (issue_with issuer serial_counter env service_name, next_u64 serial_counter)

  abbrev pub ca_params : DateTime → CertificateParams → CertificateParams
  ca_params now params =
      let named = rcgen.push_name params.distinguished_name common_name "SecureNet Root CA" in
      record params {
        distinguished_name = rcgen.push_name named organization_name "SecureNet";
        not_before = now;
        not_after = now + 3650 * 86400 * nanos_per_sec;
        is_ca = ca_unconstrained;
        key_usages = key_cert_sign ∷ crl_sign ∷ [];
      }

  -- The PEM texts of the certificate and of the key.
  unfoldable pub generate_ca : DateTime → ℕ → Result (String × String) String
  generate_ca now entropy = do
    base ← map_err (λ _. "failed to create CA params") (rcgen.new_params [])
    key_pair ← map_err (λ _. "failed to generate CA key pair") (rcgen.generate_key entropy)
    cert ← map_err (λ _. "failed to self-sign CA") (rcgen.self_signed (ca_params now base) key_pair)
    ok (rcgen.pem cert, rcgen.serialize_pem key_pair)
