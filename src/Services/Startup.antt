-- ===== src/Services/Startup.antt =====
-- The `main` functions of user-service and order-service, up to the accept loop.
pub mod Laws
use secure_net.Base.{String, Bool}
use secure_net.Base.Result.{Result, ok, err, map_err, ◌>>=◌}
use secure_net.External.Hex.{Hex, Digest}
use secure_net.External.Json.{Json}
use secure_net.External.Rustls.{Rustls}
use secure_net.External.Host.{Host}
use secure_net.External.Otel.{Otel}
use secure_net.Shared.Models.{DateTime}
use secure_net.Shared.Exchange.{Transport}
use secure_net.Shared.Rotation.{RotatingTlsConfig, Rotation}
use secure_net.Shared.Boot.{BootResult, BootError, run, mtls_client}
use secure_net.Shared.Startup.{
  Anyhow, from_error, from_boot_error, var_or, telemetry, listen_addr, started,
}
use secure_net.Services.Users
use secure_net.Services.Orders
use secure_net.Services.Orders.{seed_orders}

module _ (tls : Rustls) where
  -- What a backend service hands to `serve_mtls`, with its state and the task that it has spawned.
  pub record Server (State : Type 0) : Type 0 where
    pub state : State
    pub tls_config : RotatingTlsConfig tls
    pub rotation : Rotation tls
    pub addr : String

  -- The order service also has a client for its calls.
  pub record OrderServer : Type 0 where
    pub server : Server Orders.AppState
    pub mtls_client : tls.ClientConfig

  module _ (hex : Hex) (sha256 : Digest) (json : Json) (otel : Otel) where
    unfoldable pub user_server :
        Host → BootResult hex sha256 json tls → Result (Server Users.AppState) Anyhow
    user_server host boot = do
      addr ← listen_addr host "8001"
      ok (record {
        state = Users.initial boot.bundle.serial;
        tls_config = boot.tls_config;
        rotation = boot.rotation;
        addr = addr;
      })

    unfoldable pub order_server : Host → BootResult hex sha256 json tls → Result OrderServer Anyhow
    order_server host boot = do
      client ← from_boot_error (mtls_client tls boot.bundle)
      addr ← listen_addr host "8002"
      ok (record {
        server = record {
          state = record {
            orders = seed_orders;
            user_svc_url = var_or host "USER_SERVICE_URL" "https://localhost:8001";
            cert_serial = boot.bundle.serial;
          };
          tls_config = boot.tls_config;
          rotation = boot.rotation;
          addr = addr;
        };
        mtls_client = client;
      })

    module _ {W : Type 0} (net : Transport json.Value W) (clock : W → DateTime) where
      abbrev pub boot :
          Host
          → Result String String
          → String
          → W
          → Result (BootResult hex sha256 json tls) BootError × W
      boot host machine_file service_name =
          run hex sha256 json tls net clock machine_file service_name
            (var_or host "VAULT_URL" "http://localhost:8003")

      unfoldable pub start_user :
          Host → Result String String → W → Result (Server Users.AppState) Anyhow × W
      unfolding started user_server
      start_user host machine_file =
          started (telemetry otel host "user-service") (boot host machine_file "user-service")
            (user_server host)

      unfoldable pub start_order : Host → Result String String → W → Result OrderServer Anyhow × W
      unfolding started order_server
      start_order host machine_file =
          started (telemetry otel host "order-service") (boot host machine_file "order-service")
            (order_server host)
