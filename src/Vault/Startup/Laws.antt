-- ===== src/Vault/Startup/Laws.antt =====
-- When a vault starts, and what holds of one that did.
use secure_net.Base.{
  list_eq, nat_eq, ℕ, ◌+◌, ◌^◌, ◌≤◌, ◌<◌, ◌≡◌, ◌↔◌, inl, inr, sym, ap, subst, String, [], ◌<>◌,
  arith,
}
use secure_net.Base.Result.{Result, ok, Result-cases}
use secure_net.External.Hex.{Bytes}
use secure_net.External.Host.{Host}
use secure_net.External.Otel.{Otel}
use secure_net.Shared.Startup.{var_or, telemetry, listen_addr}
use secure_net.Vault.Verifier.{Allowlist}
use secure_net.Vault.Issuer.{from_pem}
use secure_net.Vault.State.{Deps, Env, AppState, new}
use secure_net.Vault.Routes.Trace.Serials.{IsDistinct}
use secure_net.Base.HashMap.{IsMap, get}
use secure_net.Vault.Routes.Trace.Nonces.{has}
use secure_net.Vault.Concurrent.{World, Reach}
use secure_net.Vault.Concurrent.Spending.{count, certificates, certificates-le-offers}
use secure_net.Vault.Concurrent.Numbering.{numbers, Reach-IsDistinct}
use secure_net.Vault.Startup.{Ready, Files, start, read_files, app_state, process, open_log}

module _ (d : Deps) (otel : Otel) (toml : String → Result Allowlist String) (host : Host) where
  -- The three files, under the paths of the environment or their defaults.
  pub record IsRead (files : Files d otel) : Type 0 where
    pub cert :
        host.read_to_string (var_or host "CA_CERT_PATH" "bootstrap/ca.pem") ≡ ok files.ca_cert_pem
    pub key :
        host.read_to_string (var_or host "CA_KEY_PATH" "bootstrap/ca-key.pem") ≡ ok files.ca_key_pem
    pub allowlist :
        host.read_to_string (var_or host "ALLOWLIST_PATH" "allowlist.toml")
        ≡ ok files.allowlist_toml

  read_files_lem : (files : Files d otel) → read_files d otel host ≡ ok files → IsRead files
  unfolding read_files
  read_files_lem files h =
      elim (Result-cases (host.read_to_string (var_or host "CA_CERT_PATH" "bootstrap/ca.pem"))) [
        | inr (e, bad) ↦ absurd (ground arith)
        | inl (cert, got) ↦
            elim (Result-cases
              (host.read_to_string (var_or host "CA_KEY_PATH" "bootstrap/ca-key.pem"))) [
                | inr (e, bad) ↦ absurd (ground arith)
                | inl (key, got') ↦
                    elim (Result-cases
                      (host.read_to_string (var_or host "ALLOWLIST_PATH" "allowlist.toml"))) [
                        | inr (e, bad) ↦ absurd (ground arith)
                        | inl (text, got'') ↦ record {
                          cert = ground arith;
                          key = ground arith;
                          allowlist = ground arith;
                        }
                      ]
              ]
      ]

  IsRead_lem : (files : Files d otel) → IsRead files → read_files d otel host ≡ ok files
  unfolding read_files
  IsRead_lem files h = ground (arith, h.cert, h.key, h.allowlist)

  -- The state is made of what the files say.
  pub record IsMade (files : Files d otel) (app : AppState d) : Type 0 where
    pub allowlist : Allowlist
    pub parsed : toml files.allowlist_toml ≡ ok allowlist
    pub ca_key_pair : d.rcgen.KeyPair
    pub key_parsed : d.rcgen.key_from_pem files.ca_key_pem ≡ ok ca_key_pair
    pub made :
        app
        ≡ new d
            (record { ca_cert_pem = files.ca_cert_pem; ca_key_pair = ca_key_pair })
            (open_log (var_or host "LOG_PATH" "/var/log/vault/issuance.log"))
            allowlist

  app_state_lem :
      (files : Files d otel) (app : AppState d)
      → app_state d otel toml host files ≡ ok app
      → IsMade files app
  unfolding app_state from_pem
  app_state_lem files app h = elim (Result-cases (toml files.allowlist_toml)) [
    | inr (e, bad) ↦ absurd (ground arith)
    | inl (allowlist, parsed) ↦ elim (Result-cases (d.rcgen.key_from_pem files.ca_key_pem)) [
      | inr (e, bad) ↦ absurd (ground arith)
      | inl (key, key_parsed) ↦ record {
        allowlist = allowlist;
        parsed = parsed;
        ca_key_pair = key;
        key_parsed = key_parsed;
        made = ground arith;
      }
    ]
  ]

  IsMade_lem :
      (files : Files d otel) (app : AppState d)
      → IsMade files app
      → app_state d otel toml host files ≡ ok app
  unfolding app_state from_pem
  IsMade_lem files app h = ground (arith, h.parsed, h.key_parsed, h.made)

  pub record IsStarted (ready : Ready d otel) : Type 0 where
    pub traced : telemetry otel host "vault-service" ≡ ok tt
    pub files : Files d otel
    pub read : IsRead files
    pub app : IsMade files ready.app
    pub parsed : host.parse_addr ("0.0.0.0:" <> var_or host "PORT" "8003") ≡ ok ready.addr
    pub bound : host.bind ready.addr ≡ ok tt

  start_lem : (ready : Ready d otel) → start d otel toml host ≡ ok ready → IsStarted ready
  unfolding start listen_addr
  start_lem ready h = elim (Result-cases (telemetry otel host "vault-service")) [
    | inr (e, bad) ↦ absurd (ground arith)
    | inl (u, traced) ↦ elim (Result-cases (read_files d otel host)) [
      | inr (e, bad) ↦ absurd (ground arith)
      | inl (files, read) ↦ elim (Result-cases (app_state d otel toml host files)) [
        | inr (e, bad) ↦ absurd (ground arith)
        | inl (app, made) ↦
            elim (Result-cases (host.parse_addr ("0.0.0.0:" <> var_or host "PORT" "8003"))) [
              | inr (e, bad) ↦ absurd (ground arith)
              | inl (addr, parsed) ↦ elim (Result-cases (host.bind addr)) [
                | inr (e, bad) ↦ absurd (ground arith)
                | inl (u', bound) ↦
                    let same : ready ≡ record { app = app; addr = addr } = ground arith in
                    subst IsStarted (sym same) (record {
                      traced = traced;
                      files = files;
                      read = read_files_lem files read;
                      app = app_state_lem files app made;
                      parsed = parsed;
                      bound = bound;
                    })
              ]
            ]
      ]
    ]
  ]

  -- A vault starts exactly if its tracing can be set up, the CA's certificate, the CA's key and the
  -- allowlist can be read, the latter two parse, and the address of its port parses and can be bound;
  -- its state is then made of these, with no nonces, no revocations and the log's path.
  pub start_iff : (ready : Ready d otel) → (start d otel toml host ≡ ok ready) ↔ IsStarted ready
  unfolding start listen_addr
  start_iff ready = (
    λ h. start_lem ready h,
    λ h. ground (
      arith,
      h.traced,
      IsRead_lem h.files h.read,
      IsMade_lem h.files ready.app h.app,
      h.parsed,
      h.bound,
    ),
  )

  -- A vault that has started makes no two certificates with one serial number and grants no more for a
  -- nonce than it handed that nonce out, however the accesses of its handlers interleave, for fewer
  -- than 2^64 - 1 steps.
  pub started_grants :
      {P : Env → Type 0} {n : ℕ} {w : World d} (ready : Ready d otel) (file : String) (b : Bytes)
      → start d otel toml host ≡ ok ready
      → 1 + n < 2 ^ 64
      → Reach d P (record { vault = process d otel ready file; tasks = []; offered = [] }) n w
      → IsDistinct (numbers d w.tasks) × (certificates d b w.tasks ≤ count b w.offered)
  unfolding new get
  started_grants ready file b h room r =
      let empty : ready.app.nonce_store ≡ [] =
        ap (λ app. app.nonce_store) (start_lem ready h).app.made in
      let offers = certificates-le-offers d b (subst IsMap (sym empty) tt) r in
      (Reach-IsDistinct d room r, omega (arith, offers, ap (has b) empty))
