-- ===== src/Integration/Tests.antt =====
-- A service that boots against a vault, and one that is refused.
use secure_net.Base.{
  ℕ, ◌*◌, ◌≡◌, refl, String, true, some, [], ◌∷◌, text_eq, nat_eq, list_eq, trim, format_016x,
}
use secure_net.Base.Result.{ok}
use secure_net.Base.HashMap.{get, insert, remove, retain}
use secure_net.Shared.Errors.{ErrorBody}
use secure_net.Shared.Models.{CertBundle, nanos_per_sec}
use secure_net.Shared.Attestation.{machine_id}
use secure_net.Shared.Exchange.{or_unknown, attested_request}
use secure_net.Shared.Identity
use secure_net.Shared.Identity.{ServiceIdentity, serving}
use secure_net.Samples.SampleHex.{sample_hex, sample_digest, encode, decode}
use secure_net.Samples.SampleJson.{sample_json, field}
use secure_net.Samples.SampleRcgen.{sample_rcgen}
use secure_net.Vault.NonceStore.{register}
use secure_net.Vault.Verifier.{contains}
use secure_net.Vault.Issuer
use secure_net.Vault.State.{Deps, Env, Vault}
use secure_net.Vault.Routes.{nonce}
use secure_net.Vault.Routes.Issuance.{minted}
use secure_net.Integration.Laws.{offered, request}

program : Unit {0}
unfolding get insert remove retain register contains nonce machine_id trim attested_request
    Issuer.issue_with format_016x encode decode field
program = tt

abbrev pub libraries : Deps
libraries = record {
  hex = sample_hex;
  sha256 = sample_digest;
  json = sample_json;
  rcgen = sample_rcgen;
  entry_to_string = λ e. ok e.cert_serial;
}

abbrev pub vault : Vault libraries
vault = record {
  app = record {
    issuer = record { ca_cert_pem = "CA"; ca_key_pair = 7 };
    log = record { path = "/var/log/vault/issuance.log" };
    allowlist = record { machine_ids = "m1" ∷ [] };
    nonce_store = [];
    revoked = [];
    issued = 0;
  };
  serial_counter = 1;
  file = "";
}

-- Second `t` of the run; the random source gives the bytes 1, 2.
abbrev pub at : ℕ → Env
at t = record {
  random = 1 ∷ 2 ∷ [];
  seen = λ k. t * nanos_per_sec;
  instant = t * nanos_per_sec;
  issue_env = record { now = t * nanos_per_sec; utc_now = t * nanos_per_sec; entropy = 5 };
  log_env = record {
    timestamp = t;
    unused_expiry = t;
    fs = record {
      parent = λ path. some "/var/log/vault";
      create_dir_all = λ dir. ok tt;
      open_append = λ path. ok tt;
      write_all = λ line. ok tt;
    };
  };
}

abbrev pub show : ErrorBody → String
show body = body.message

abbrev pub fresh : ServiceIdentity
fresh = Identity.new "user-service"

abbrev pub bundle : CertBundle
bundle = record {
  cert_pem = "LEAF";
  key_pem = "KEY";
  ca_pem = "CA";
  expires_at = 302 * nanos_per_sec;
  serial = "0000000000000001";
}

pub listed : contains vault.app.allowlist (or_unknown (machine_id (ok "m1\n"))) ≡ true
unfolding program
listed = refl

made :
    minted libraries
      (at 2)
      (request libraries show "v" (at 1) (at 2) vault (ok "m1\n") "user-service")
      (offered libraries show "v" (at 1) (at 2) vault)
    ≡ ok bundle
unfolding program
made = refl
