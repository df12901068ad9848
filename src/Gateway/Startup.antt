-- ===== src/Gateway/Startup.antt =====
-- The `main` function of api-gateway, up to the accept loop.
pub mod Laws
use secure_net.Base.{ℕ, String, Option, none, some, [], ◌∷◌}
use secure_net.Base.Result.{Result, ok, err, map_err, ◌>>=◌}
use secure_net.External.Hex.{Hex, Digest}
use secure_net.External.Rustls.{Rustls}
use secure_net.External.Host.{Host}
use secure_net.External.Otel.{Otel}
use secure_net.External.Jsonwebtoken.{Rsa}
use secure_net.Shared.Models.{DateTime}
use secure_net.Shared.Exchange.{Transport}
use secure_net.Shared.Rotation.{RotatingTlsConfig, Rotation}
use secure_net.Shared.Boot.{BootResult, BootError, run_gateway, mtls_client}
use secure_net.Shared.Startup.{
  Anyhow, from_error, from_boot_error, var_or, telemetry, listen_addr, started,
}
use secure_net.Gateway.Jwt.{JwtKeys, UserStore, load_or_generate, seeded}
use secure_net.Gateway.Proxy.{Deps, AppState}

-- What is drawn at the start: the entropy of the keys, and the two salts.
pub record StartDraws : Type 0 where
  pub keys : ℕ
  pub alice_salt : ℕ
  pub admin_salt : ℕ

module _ (d : Deps) (tls : Rustls) (rsa : Rsa) where
  pub record GatewayServer : Type 0 where
    pub state : AppState d
    pub mtls_client : tls.ClientConfig
    pub tls_config : RotatingTlsConfig tls
    pub rotation : Rotation tls
    pub addr : String

  -- `UserStore::seeded()` panics if a password cannot be hashed.
  abbrev unwrapped : Option UserStore → Result UserStore Anyhow
  unwrapped none = err ("panicked" ∷ [])
  unwrapped (some store) = ok store

  abbrev pub keys : Host → ℕ → Result (JwtKeys d.jwt) Anyhow
  keys host entropy = from_error (
      load_or_generate d.jwt (host.env_var "RSA_PRIVATE_KEY_PATH")
        (host.env_var "RSA_PUBLIC_KEY_PATH") host.read rsa entropy)

  module _ (hex : Hex) (sha256 : Digest) (otel : Otel) where
    unfoldable pub gateway_server :
        Host → StartDraws → BootResult hex sha256 d.json tls → Result GatewayServer Anyhow
    gateway_server host draws boot = do
      jwt_keys ← keys host draws.keys
      client ← from_boot_error (mtls_client tls boot.bundle)
      user_store ← unwrapped (seeded d.bcrypt draws.alice_salt draws.admin_salt)
      addr ← listen_addr host "8080"
      ok (record {
        state = record {
          jwt_keys = jwt_keys;
          user_store = user_store;
          user_svc_url = var_or host "USER_SERVICE_URL" "https://localhost:8001";
          order_svc_url = var_or host "ORDER_SERVICE_URL" "https://localhost:8002";
          cert_serial = boot.bundle.serial;
        };
        mtls_client = client;
        tls_config = boot.tls_config;
        rotation = boot.rotation;
        addr = addr;
      })

    module _ {W : Type 0} (net : Transport d.json.Value W) (clock : W → DateTime) where
      abbrev pub boot :
          Host → Result String String → W → Result (BootResult hex sha256 d.json tls) BootError × W
      boot host machine_file =
          run_gateway hex sha256 d.json tls net clock machine_file "api-gateway"
            (var_or host "VAULT_URL" "http://localhost:8003")

      unfoldable pub start_gateway :
          Host → StartDraws → Result String String → W → Result GatewayServer Anyhow × W
      unfolding started gateway_server
      start_gateway host draws machine_file =
          started (telemetry otel host "api-gateway") (boot host machine_file)
            (gateway_server host draws)
