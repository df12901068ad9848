-- ===== src/Samples/SampleRcgen.antt =====
-- A CA that signs everything.
use secure_net.Base.{ℕ, String, [], ◌∷◌, map, none}
use secure_net.Base.Result.{ok}
use secure_net.External.Rcgen.{Rcgen, CertificateParams, dns_name, no_ca}

abbrev pub default_params : CertificateParams
default_params = record {
  subject_alt_names = [];
  distinguished_name = [];
  not_before = 0;
  not_after = 0;
  is_ca = no_ca;
  key_usages = [];
  extended_key_usages = [];
  serial_number = none;
}

abbrev pub sample_rcgen : Rcgen
sample_rcgen = record {
  KeyPair = ℕ;
  Certificate = String;
  key_from_pem = λ pem. ok 7;
  generate_key = λ entropy. ok entropy;
  serialize_pem = λ key. "KEY";
  push_name = λ names kind name. (kind, name) ∷ names;
  new_params = λ names. ok (record default_params { subject_alt_names = map dns_name names });
  from_ca_cert_pem = λ pem. ok default_params;
  self_signed = λ params key. ok "CA";
  signed_by = λ params key ca ca_key. ok "LEAF";
  pem = λ cert. cert;
}
