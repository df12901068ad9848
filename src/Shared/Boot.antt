-- ===== src/Shared/Boot.antt =====
-- shared/src/boot.rs: from a locked identity to a service that can accept connections.
pub mod Laws
use secure_net.Base.{ℕ, String, ◌<>◌, Bool, if◌then◌else◌}
use secure_net.Base.Result.{Result, ok, err, map_err, ◌>>=◌}
use secure_net.External.Hex.{Hex, Digest}
use secure_net.External.Json.{Json}
use secure_net.External.Rustls.{Rustls}
use secure_net.Shared.Errors.{AppError}
use secure_net.Shared.Models.{CertBundle, DateTime, ttl_secs}
use secure_net.Shared.Exchange.{Transport}
use secure_net.Shared.Identity
use secure_net.Shared.Identity.{ServiceIdentity, unseal}
use secure_net.Shared.VaultClient
use secure_net.Shared.VaultClient.{HttpVaultClient}
use secure_net.Shared.Tls.{client_config}
use secure_net.Shared.Rotation.{RotatingTlsConfig, Rotation, new, new_gateway, spawn_rotation_task}

-- An `anyhow` error with a context.
pub record BootError : Type 0 where
  pub context : String
  pub cause : AppError

abbrev pub with_context : {A : Type 0} → String → Result A AppError → Result A BootError
with_context context r = map_err (λ e. record { context = context; cause = e }) r

-- The client configuration of outbound calls; building the reqwest client is the crate's.
unfoldable pub mtls_client : (tls : Rustls) → CertBundle → Result tls.ClientConfig BootError
mtls_client tls bundle =
    with_context "failed to build rustls ClientConfig" (client_config tls bundle)

module _ (hex : Hex) (sha256 : Digest) (json : Json) (tls : Rustls) where
  pub record BootResult : Type 0 where
    pub bundle : CertBundle
    pub tls_config : RotatingTlsConfig tls
    pub vault : HttpVaultClient
    pub identity : ServiceIdentity
    -- The state in which the spawned task starts.
    pub rotation : Rotation tls

  abbrev pub booted :
      String → String → DateTime → ServiceIdentity → CertBundle → RotatingTlsConfig tls → BootResult
  booted service_name vault_url now identity bundle tls_config = record {
    bundle = bundle;
    tls_config = tls_config;
    vault = VaultClient.new vault_url service_name bundle;
    identity = identity;
    rotation = spawn_rotation_task tls tls_config (ttl_secs bundle now);
  }

  module _ {W : Type 0} (net : Transport json.Value W) (clock : W → DateTime) where
    -- `run` and `run_gateway` differ in the constructor of the configuration and its message.
    abbrev start :
        (CertBundle → Result (RotatingTlsConfig tls) BootError)
        → Result String String
        → String
        → String
        → W
        → Result BootResult BootError × W
    start build machine_file service_name vault_url w =
        let (attempt, w') =
          unseal hex sha256 json net machine_file vault_url (Identity.new service_name) w in
        let started = do
          bundle ← with_context ("failed to unseal with vault at " <> vault_url) attempt.result
          tls_config ← build bundle
          ok (booted service_name vault_url (clock w') attempt.identity bundle tls_config)
        in (started, w')

    unfoldable pub run :
        Result String String → String → String → W → Result BootResult BootError × W
    run =
        start
          (λ bundle. with_context "failed to build TLS config from cert bundle" (new tls bundle))

    unfoldable pub run_gateway :
        Result String String → String → String → W → Result BootResult BootError × W
    run_gateway =
        start (λ bundle. with_context "failed to build gateway TLS config" (new_gateway tls bundle))
