-- ===== src/Integration/Renewing.antt =====
-- The rotation task of a service whose renewals are answered by a vault, which answers others too.
pub mod Willing
pub mod InTime
pub mod Booted
use secure_net.Base.{ℕ, ◌+◌, ◌*◌, ◌≤◌, ◌≡◌, ◌≢◌, String, Bool, List, []}
use secure_net.Base.Result.{Result, ok}
use secure_net.External.Hex.{IsBytes}
use secure_net.External.Rustls.{Rustls}
use secure_net.Shared.Errors.{ErrorBody}
use secure_net.Shared.Models.{CertBundle, nanos_per_sec}
use secure_net.Shared.VaultClient
use secure_net.Shared.VaultClient.{HttpVaultClient}
use secure_net.Shared.Rotation.{Runtime, config_for}
use secure_net.Vault.Issuer.{Issuer, issue_with}
use secure_net.Vault.State.{Deps, Env, Vault}
use secure_net.Vault.Routes.{Request, serve}
use secure_net.Vault.Routes.Trace.Survival.{AllSpare}
use secure_net.Integration.Crowd.{busy}

-- The service's client and the vault, at a time in nanoseconds.
pub record Site (d : Deps) : Type 0 where
  pub client : HttpVaultClient
  pub vault : Vault d
  pub time : ℕ

-- What goes on around the service: what the vault's requests read from their surroundings at a time,
-- and the requests of others between the two of a renewal, and during a sleep, that begins then.
pub record World (d : Deps) : Type 0 where
  pub env : ℕ → Env
  pub between : ℕ → List (Env × Request d)
  pub meanwhile : ℕ → List (Env × Request d)
  -- How long a request of a renewal takes, and by how much a sleep overruns, that begins then.
  pub lag : ℕ → ℕ
  pub overrun : ℕ → ℕ

module _ (d : Deps) (show : ErrorBody → String) (base : String) (world : World d)
    (machine_file : Result String String) where
  unfoldable pub runtime : (ℕ → String) → Runtime (Site d)
  runtime print = record {
    renew = λ service_name s.
        let (result, client, vault) =
          VaultClient.renew d.hex d.sha256 d.json
            (busy d show base (world.between s.time) (world.env s.time)
              (world.env (s.time + world.lag s.time)))
            machine_file service_name s.client s.vault in
        (
          result,
          record {
            client = client;
            vault = vault;
            time = s.time + world.lag s.time + world.lag (s.time + world.lag s.time);
          },
        );
    sleep = λ n s. record s {
      vault = (serve d (world.meanwhile s.time) s.vault).1;
      time = s.time + n * nanos_per_sec + world.overrun s.time;
    };
    now = λ s. s.time;
    show = print;
  }

module _ (d : Deps) (tls : Rustls) (is_gateway : Bool) (issuer : Issuer d.rcgen)
    (service_name : String) (world : World d) where
  -- Requests and sleeps end in time, the vault's clocks are right, its nonces are non-empty strings of bytes, the others leave the nonce
  -- of a renewal alone, and the issuer makes bundles of which configurations can be made.
  pub record IsFair : Type 0 where
    pub quick : (t : ℕ) → world.lag t ≤ 7 * nanos_per_sec
    pub rested : (t : ℕ) → world.overrun t ≤ 14 * nanos_per_sec
    pub instant : (t : ℕ) → (world.env t).instant ≡ t
    pub utc : (t : ℕ) → (world.env t).issue_env.utc_now ≡ t
    pub bytes : (t : ℕ) → IsBytes (world.env t).random
    pub nonempty : (t : ℕ) → (world.env t).random ≢ []
    pub spared : (t : ℕ) → AllSpare d (world.env t).random (world.env t).instant (world.between t)
    pub issues :
        (counter t : ℕ)
        → (bundle : CertBundle) × (issue_with d.rcgen issuer counter
              (world.env t).issue_env
              service_name
            ≡ ok bundle)
          × (config : tls.ServerConfig) × (config_for tls is_gateway bundle ≡ ok config)
