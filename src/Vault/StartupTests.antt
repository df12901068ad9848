-- ===== src/Vault/StartupTests.antt =====
-- A vault that starts on a concrete machine.
use secure_net.Base.{◌≡◌, ◌↔◌, refl, String}
use secure_net.Base.Result.{Result, ok}
use secure_net.Samples.SampleHost.{sample_host, sample_otel}
use secure_net.Shared.Startup.{var_or, telemetry, listen_addr}
use secure_net.Shared.Telemetry.{init_telemetry}
use secure_net.Vault.Issuer.{from_pem}
use secure_net.Vault.Verifier.{Allowlist}
use secure_net.Vault.Tests.{libraries, hosts}
use secure_net.Vault.State.{new}
use secure_net.Vault.Startup.{Ready, start, read_files, app_state}
use secure_net.Vault.Startup.Laws.{IsStarted, start_iff}

abbrev toml : String → Result Allowlist String
toml text = ok hosts

abbrev ready : Ready libraries sample_otel
ready = record {
  app =
      new libraries (record { ca_cert_pem = "bootstrap/ca.pem"; ca_key_pair = 7 })
        (record { path = "/var/log/vault/issuance.log" }) hosts;
  addr = "0.0.0.0:8003";
}

starts : start libraries sample_otel toml sample_host ≡ ok ready
unfolding start read_files app_state from_pem var_or telemetry init_telemetry listen_addr
starts = refl

start_iff_example :
    (start libraries sample_otel toml sample_host ≡ ok ready)
    ↔ IsStarted libraries sample_otel toml sample_host ready
start_iff_example = start_iff libraries sample_otel toml sample_host ready
