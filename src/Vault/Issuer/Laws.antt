-- ===== src/Vault/Issuer/Laws.antt =====
-- What every issued certificate is.
use secure_net.Base.{inl, inr, ℕ, ◌+◌, ◌*◌, ◌≡◌, String, some, refl, arith, format_016x}
use secure_net.Base.Result.{ok, Result-cases}
use secure_net.External.Rcgen.{Rcgen, CertificateParams, no_ca}
use secure_net.Shared.Models.{CertBundle, nanos_per_sec}
use secure_net.Vault.Issuer.{Issuer, IssueEnv, next_u64, leaf_params, leaf_names, issue_with, issue}

module _ (rcgen : Rcgen) where
  -- A bundle made for a service from the counter's value.
  pub record IsLeaf (issuer : Issuer rcgen) (counter : ℕ) (env : IssueEnv) (service_name : String)
      (bundle : CertBundle) : Type 0 where
    pub base : CertificateParams
    pub leaf_key : rcgen.KeyPair
    pub ca_cert : rcgen.Certificate
    pub leaf_cert : rcgen.Certificate
    pub named : rcgen.new_params (leaf_names rcgen service_name) ≡ ok base
    pub signed :
        rcgen.signed_by
          (leaf_params rcgen service_name counter env.now base)
          leaf_key
          ca_cert
          issuer.ca_key_pair
        ≡ ok leaf_cert
    pub cert_pem : bundle.cert_pem ≡ rcgen.pem leaf_cert
    pub key_pem : bundle.key_pem ≡ rcgen.serialize_pem leaf_key
    pub ca_pem : bundle.ca_pem ≡ issuer.ca_cert_pem
    pub serial : bundle.serial ≡ format_016x counter
    pub expires_at : bundle.expires_at ≡ env.utc_now + 300 * nanos_per_sec
    -- What was signed is no CA, lives for 300 s and has the serial number of the bundle.
    pub not_a_ca : (leaf_params rcgen service_name counter env.now base).is_ca ≡ no_ca
    pub lifetime :
        (leaf_params rcgen service_name counter env.now base).not_after
        ≡ (leaf_params rcgen service_name counter env.now base).not_before + 300 * nanos_per_sec
    pub serial_number :
        (leaf_params rcgen service_name counter env.now base).serial_number ≡ some counter

  -- A certificate that `issue` returns is signed by the CA's key over parameters that are no CA, are
  -- valid for 300 s and have the counter as serial number; the bundle holds its text, the text of
  -- the CA's certificate, the counter in hexadecimal, and an expiry 300 s ahead. The counter moves on.
  pub issue-IsLeaf :
      (issuer : Issuer rcgen) (counter : ℕ) (env : IssueEnv) (service_name : String)
      (bundle : CertBundle)
      → (issue rcgen issuer counter env service_name).0 ≡ ok bundle
      → IsLeaf issuer counter env service_name bundle
        × ((issue rcgen issuer counter env service_name).1 ≡ next_u64 counter)
  unfolding issue issue_with
  issue-IsLeaf issuer counter env service_name bundle h =
      elim (Result-cases (rcgen.new_params (leaf_names rcgen service_name))) [
        | inr (e, bad) ↦ absurd (ground arith)
        | inl (base, named) ↦ elim (Result-cases (rcgen.generate_key env.entropy)) [
          | inr (e, bad) ↦ absurd (ground arith)
          | inl (leaf_key, drawn) ↦
              elim (Result-cases (rcgen.from_ca_cert_pem issuer.ca_cert_pem)) [
                | inr (e, bad) ↦ absurd (ground arith)
                | inl (ca, parsed) ↦ elim (Result-cases (rcgen.self_signed ca issuer.ca_key_pair)) [
                  | inr (e, bad) ↦ absurd (ground arith)
                  | inl (ca_cert, rebuilt) ↦
                      elim (Result-cases (
                        rcgen.signed_by (leaf_params rcgen service_name counter env.now base)
                          leaf_key ca_cert issuer.ca_key_pair)) [
                            | inr (e, bad) ↦ absurd (ground arith)
                            | inl (leaf_cert, signed) ↦ (
                              record {
                                base = base;
                                leaf_key = leaf_key;
                                ca_cert = ca_cert;
                                leaf_cert = leaf_cert;
                                named = named;
                                signed = signed;
                                cert_pem = ground arith;
                                key_pem = ground arith;
                                ca_pem = ground arith;
                                serial = ground arith;
                                expires_at = ground arith;
                                not_a_ca = refl;
                                lifetime = refl;
                                serial_number = refl;
                              },
                              refl,
                            )
                          ]
                ]
              ]
        ]
      ]

  pub issue_with-serial :
      (issuer : Issuer rcgen) (counter : ℕ) (env : IssueEnv) (service_name : String)
      (bundle : CertBundle)
      → issue_with rcgen issuer counter env service_name ≡ ok bundle
      → bundle.serial ≡ format_016x counter
  issue_with-serial issuer counter env service_name bundle h =
      (issue-IsLeaf issuer counter env service_name bundle (unfold issue in h)).0.serial
