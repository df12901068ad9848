-- ===== src/Vault/Startup.antt =====
-- vault-service/src/main.rs: from the environment to a vault that listens.
pub mod Laws
use secure_net.Base.{String, ◌<>◌}
use secure_net.Base.Result.{Result, ok, err, map_err, ◌>>=◌, ◌>>◌}
use secure_net.External.Host.{Host}
use secure_net.External.Otel.{Otel}
use secure_net.Shared.Startup.{Anyhow, from_error, context, var_or, telemetry, listen_addr}
use secure_net.Vault.Verifier.{Allowlist}
use secure_net.Vault.Issuer.{from_pem}
use secure_net.Vault.Log.{IssuanceLog}
use secure_net.Vault.State.{Deps, AppState, Vault, new}

-- Nothing is created or opened here.
abbrev pub open_log : String → IssuanceLog
open_log path = record { path = path }

module _ (d : Deps) (otel : Otel) where
  pub record Ready : Type 0 where
    pub app : AppState d
    pub addr : String

  -- The texts of the two PEM files and of the allowlist.
  pub record Files : Type 0 where
    pub ca_cert_pem : String
    pub ca_key_pem : String
    pub allowlist_toml : String

  abbrev read_file : Host → String → String → Result String Anyhow
  read_file host what path =
      context ("cannot read " <> (what <> (" from " <> path))) (host.read_to_string path)

  unfoldable pub read_files : Host → Result Files Anyhow
  read_files host = do
    ca_cert_pem ← read_file host "CA cert" (var_or host "CA_CERT_PATH" "bootstrap/ca.pem")
    ca_key_pem ← read_file host "CA key" (var_or host "CA_KEY_PATH" "bootstrap/ca-key.pem")
    allowlist_toml ← read_file host "allowlist" (var_or host "ALLOWLIST_PATH" "allowlist.toml")
    ok (record {
      ca_cert_pem = ca_cert_pem;
      ca_key_pem = ca_key_pem;
      allowlist_toml = allowlist_toml;
    })

  -- `toml` is `toml::from_str`.
  unfoldable pub app_state :
      (String → Result Allowlist String) → Host → Files → Result (AppState d) Anyhow
  app_state toml host files = do
    allowlist ← context "failed to parse allowlist.toml" (toml files.allowlist_toml)
    issuer ←
        context "failed to initialise issuer" (from_pem d.rcgen files.ca_cert_pem files.ca_key_pem)
    ok (new d issuer (open_log (var_or host "LOG_PATH" "/var/log/vault/issuance.log")) allowlist)

  -- Up to the listener. What the Secure Boot check finds is logged and not used.
  unfoldable pub start : (String → Result Allowlist String) → Host → Result Ready Anyhow
  unfolding read_files app_state
  start toml host = do
    telemetry otel host "vault-service"
    files ← read_files host
    app ← app_state toml host files
    addr ← listen_addr host "8003"
    from_error (host.bind addr)
    ok (record { app = app; addr = addr })

  -- The process with the counter of issuer.rs as it is initialised, and the log file as it is found.
  abbrev pub process : Ready → String → Vault d
  process ready file = record { app = ready.app; serial_counter = 1; file = file }
