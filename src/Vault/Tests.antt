-- ===== src/Vault/Tests.antt =====
-- A concrete vault, and the theorems of this component at concrete requests.
use secure_net.Base.{
  ℕ, ◌+◌, ◌*◌, ◌≡◌, ◌↔◌, refl, String, ◌<>◌, none, some, List, [], ◌∷◌, arith, nat_eq, list_eq,
  text_eq, format_016x,
}
use secure_net.Base.Result.{ok, err}
use secure_net.Base.HashMap.{get, insert, remove, retain}
use secure_net.Shared.Errors.{vault_rejected}
use secure_net.Shared.Models.{CertBundle, UnsealRequest, nanos_per_sec}
use secure_net.Samples.SampleHex.{sample_hex, sample_digest, encode, decode}
use secure_net.Samples.SampleJson.{sample_json, str, num, obj, entry, end, field}
use secure_net.Samples.SampleRcgen.{sample_rcgen}
use secure_net.Vault.NonceStore
use secure_net.Vault.NonceStore.{NonceStore, Instant, register, consume, nonce_lifetime}
use secure_net.Vault.NonceStore.Refinement.{
  Event, registered, consumed, answers, ledger_answers, answers-eq-ledger_answers,
}
use secure_net.Vault.Verifier.{Allowlist, contains, verify}
use secure_net.Vault.Verifier.Laws.{IsAttested}
use secure_net.Vault.Issuer
use secure_net.Vault.Issuer.{Issuer, IssueEnv, issue, next_u64}
use secure_net.Vault.Issuer.Laws.{IsLeaf, issue-IsLeaf}
use secure_net.Vault.Log.{Fs}
use secure_net.Vault.Log.Laws.{IsWorking}
use secure_net.Vault.State.{Deps, Env, Vault, new}
use secure_net.Vault.Routes.{
  body, certificate, Request, get_nonce, post_unseal, post_renew, get_health, handle, serve, unseal,
  renew, health,
}
use secure_net.Vault.Routes.Issuance.{minted, unseal_iff}
use secure_net.Vault.Routes.Trace.Persistence.{serve_file, health-serve, revocation_ignored}

program : Unit {0}
unfolding serve handle get insert remove retain register consume verify contains Issuer.issue_with
    format_016x encode decode field
program = tt

abbrev pub libraries : Deps
libraries = record {
  hex = sample_hex;
  sha256 = sample_digest;
  json = sample_json;
  rcgen = sample_rcgen;
  entry_to_string = λ e. ok e.cert_serial;
}

abbrev pub disk : Fs
disk = record {
  parent = λ path. some "/var/log/vault";
  create_dir_all = λ dir. ok tt;
  open_append = λ path. ok tt;
  write_all = λ line. ok tt;
}

abbrev pub ca : Issuer sample_rcgen
ca = record { ca_cert_pem = "CA"; ca_key_pair = 7 }

abbrev pub hosts : Allowlist
hosts = record { machine_ids = "m1" ∷ "m2" ∷ [] }

abbrev pub start : Vault libraries
start = record {
  app = record {
    issuer = ca;
    log = record { path = "/var/log/vault/issuance.log" };
    allowlist = hosts;
    nonce_store = [];
    revoked = [];
    issued = 0;
  };
  serial_counter = 1;
  file = "";
}

-- Second `t` of the run; the random source gives the bytes 1, 2.
abbrev pub at : ℕ → Env
at t = record {
  random = 1 ∷ 2 ∷ [];
  seen = λ k. t * nanos_per_sec;
  instant = t * nanos_per_sec;
  issue_env = record { now = t * nanos_per_sec; utc_now = t * nanos_per_sec; entropy = 5 };
  log_env = record { timestamp = t; unused_expiry = t; fs = disk };
}

abbrev pub attestation : UnsealRequest
attestation = record {
  service_name = "user-service";
  machine_id = "m1";
  tpm_quote = "070102";
  nonce = "0102";
  ak_pub = "";
}

abbrev pub stranger : UnsealRequest
stranger = record attestation { machine_id = "m9" }

abbrev issued_nonce : NonceStore
issued_nonce = ((1 ∷ 2 ∷ []), nanos_per_sec) ∷ []

abbrev ready : Vault libraries
ready = record start { app = record start.app { nonce_store = issued_nonce } }

abbrev script : List (Env × Request libraries)
script =
    (at 1, get_nonce)
    ∷ (at 2, post_unseal attestation)
    ∷ (at 3, post_renew attestation)
    ∷ (at 4, post_renew stranger)
    ∷ (at 5, get_health)
    ∷ []

abbrev pub first_bundle : CertBundle
first_bundle = record {
  cert_pem = "LEAF";
  key_pem = "KEY";
  ca_pem = "CA";
  expires_at = 302 * nanos_per_sec;
  serial = "0000000000000001";
}

run :
    (serve libraries script start).0
    ≡ body (obj (entry "nonce" (str "0102") end))
      ∷ certificate (ok (record { bundle = first_bundle }))
      ∷ certificate (err (vault_rejected "nonce is invalid, expired, or already used"))
      ∷ certificate (err (vault_rejected "machine_id 'm9' not in allowlist"))
      ∷ body (
          obj (
            entry "status"
              (str "ok")
              (entry "service" (str "vault-service") (entry "issued" (num 0) end))))
      ∷ []
unfolding program
run = refl

accepted :
    (verify sample_hex sample_digest attestation hosts issued_nonce (2 * nanos_per_sec)).0 ≡ ok tt
unfolding program
accepted = refl

abbrev history : List Event
history =
    registered (1 ∷ []) (λ k. 0) 5
    ∷ registered (2 ∷ []) (λ k. nonce_lifetime) (nonce_lifetime + 6)
    ∷ consumed (1 ∷ []) (nonce_lifetime + 7)
    ∷ consumed (2 ∷ []) (nonce_lifetime + 8)
    ∷ []

answers-eq-ledger_answers_example :
    answers NonceStore.new history ≡ ledger_answers (λ _. none) history
answers-eq-ledger_answers_example = answers-eq-ledger_answers history (
  (λ k. omega arith),
  omega arith,
  ((λ k. omega arith), omega arith, (omega arith, (omega arith, tt))),
)

serve_file_example : (rest : String) × ((serve libraries script start).1.file ≡ start.file <> rest)
serve_file_example = serve_file libraries script start

health-serve_example :
    let s : Vault libraries = record {
      app = new libraries ca (record { path = "log" }) hosts;
      serial_counter = 1;
      file = "";
    } in
    health libraries (serve libraries script s).1
    ≡ obj (
        entry "status"
          (str "ok")
          (entry "service" (str "vault-service") (entry "issued" (num 0) end)))
health-serve_example = health-serve libraries ca (record { path = "log" }) hosts 1 "" script

revocation_ignored_example :
    let t : Vault libraries = record ready {
      app = record ready.app { revoked = ("0000000000000001", "lost") ∷ [] };
    } in
    ((unseal libraries (at 2) attestation t).0 ≡ (unseal libraries (at 2) attestation ready).0)
    × ((renew libraries (at 2) attestation t).0 ≡ (renew libraries (at 2) attestation ready).0)
revocation_ignored_example =
    revocation_ignored libraries (at 2) attestation ready (("0000000000000001", "lost") ∷ [])

unseal_iff_example :
    ((unseal libraries (at 2) attestation ready).0 ≡ ok (record { bundle = first_bundle })) ↔ (
      IsAttested sample_hex sample_digest attestation hosts issued_nonce (2 * nanos_per_sec)
      × (minted libraries (at 2) attestation ready ≡ ok first_bundle))
unseal_iff_example = unseal_iff libraries (at 2) attestation ready first_bundle

pub disk_works : IsWorking start.app.log disk
disk_works = record { dir = λ p h. refl; open_ok = refl; write_ok = λ line. refl }

made : minted libraries (at 2) attestation ready ≡ ok first_bundle
unfolding program
made = refl

issued_ok : (issue sample_rcgen ca 1 (at 2).issue_env "user-service").0 ≡ ok first_bundle
unfolding program issue
issued_ok = refl

issue-IsLeaf_example :
    IsLeaf sample_rcgen ca 1 (at 2).issue_env "user-service" first_bundle
    × ((issue sample_rcgen ca 1 (at 2).issue_env "user-service").1 ≡ next_u64 1)
issue-IsLeaf_example =
    issue-IsLeaf sample_rcgen ca 1 (at 2).issue_env "user-service" first_bundle issued_ok
