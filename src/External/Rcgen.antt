-- ===== src/External/Rcgen.antt =====
-- The `rcgen` crate: certificate parameters, key pairs, signatures. Errors are texts.
use secure_net.Base.{ℕ, String, List, Option}
use secure_net.Base.Result.{Result}

pub data San : Type 0 where
  dns_name : String → San
  ip_address : List ℕ → San

pub data DnType : Type 0 where
  common_name organization_name : DnType

pub data IsCa : Type 0 where
  no_ca ca_unconstrained : IsCa

pub data KeyUsage : Type 0 where
  digital_signature key_encipherment key_cert_sign crl_sign : KeyUsage

pub data ExtendedKeyUsage : Type 0 where
  server_auth client_auth : ExtendedKeyUsage

-- The fields that the program sets. Times are nanoseconds since the epoch.
pub record CertificateParams : Type 0 where
  pub subject_alt_names : List San
  pub distinguished_name : List (DnType × String)
  pub not_before : ℕ
  pub not_after : ℕ
  pub is_ca : IsCa
  pub key_usages : List KeyUsage
  pub extended_key_usages : List ExtendedKeyUsage
  pub serial_number : Option ℕ

pub record Rcgen : Type 1 where
  pub KeyPair : Type 0
  pub Certificate : Type 0
  pub key_from_pem : String → Result KeyPair String
  -- The number is the entropy that the call draws.
  pub generate_key : ℕ → Result KeyPair String
  pub serialize_pem : KeyPair → String
  -- `DistinguishedName::push`
  pub push_name : List (DnType × String) → DnType → String → List (DnType × String)
  pub new_params : List String → Result CertificateParams String
  pub from_ca_cert_pem : String → Result CertificateParams String
  pub self_signed : CertificateParams → KeyPair → Result Certificate String
  -- The leaf's parameters and key, the issuer's certificate and key.
  pub signed_by : CertificateParams → KeyPair → Certificate → KeyPair → Result Certificate String
  pub pem : Certificate → String
