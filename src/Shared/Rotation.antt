-- ===== src/Shared/Rotation.antt =====
-- shared/src/rotation.rs: the task that renews the certificate before it expires.
pub mod Laws
pub mod Sleep
pub mod Timely
use secure_net.Base.{ℕ, zero, suc, ◌+◌, ◌*◌, String, ◌<>◌, Bool, true, false, ltb, if◌then◌else◌}
use secure_net.Base.Result.{Result, ok, err, ◌>>=◌}
use secure_net.External.Rustls.{Rustls}
use secure_net.Shared.Errors.{AppError, vault_unreachable}
use secure_net.Shared.Models.{CertBundle, DateTime, ttl_secs}
use secure_net.Shared.Tls.{server_config, gateway_server_config}
use secure_net.Shared.Rotation.Sleep.{sleep_secs}

-- What the task asks of its surroundings `S`: the trait `VaultClient`, the timer and the clock.
pub record Runtime (S : Type 0) : Type 0 where
  pub renew : String → S → Result CertBundle AppError × S
  -- A number of seconds.
  pub sleep : ℕ → S → S
  pub now : S → DateTime
  -- Prints a number, for the message of the error.
  pub show : ℕ → String

module _ (tls : Rustls) where
  pub record RotatingTlsConfig : Type 0 where
    pub inner : tls.ServerConfig
    pub serial : String
    pub is_gateway : Bool

  unfoldable pub config_for : Bool → CertBundle → Result tls.ServerConfig AppError
  config_for is_gateway bundle =
      if is_gateway then gateway_server_config tls bundle else server_config tls bundle

  abbrev rotating : CertBundle → Bool → tls.ServerConfig → RotatingTlsConfig
  rotating bundle is_gateway config = record {
    inner = config;
    serial = bundle.serial;
    is_gateway = is_gateway;
  }

  unfoldable pub new : CertBundle → Result RotatingTlsConfig AppError
  new bundle = do config ← server_config tls bundle; ok (rotating bundle false config)

  unfoldable pub new_gateway : CertBundle → Result RotatingTlsConfig AppError
  new_gateway bundle = do
    config ← gateway_server_config tls bundle
    ok (rotating bundle true config)

  -- The two shared values and the loop's own `ttl`.
  pub record Rotation : Type 0 where
    pub config : RotatingTlsConfig
    pub ttl : ℕ

  abbrev pub current : RotatingTlsConfig → tls.ServerConfig
  current c = c.inner

  abbrev pub current_serial : RotatingTlsConfig → String
  current_serial c = c.serial

  -- The state in which the task starts.
  abbrev pub spawn_rotation_task : RotatingTlsConfig → ℕ → Rotation
  spawn_rotation_task c initial_ttl = record { config = c; ttl = initial_ttl }

  -- From the result of the renewal on; the time is the one when it has come.
  unfoldable pub install : Result CertBundle AppError → DateTime → Rotation → Rotation
  install (err e) now r = record r { ttl = 30 }
  install (ok bundle) now r = elim (config_for r.config.is_gateway bundle) [
    | ok config ↦ record r {
      config = record r.config { inner = config; serial = bundle.serial };
      ttl = ttl_secs bundle now;
    }
    | err e ↦ record r { ttl = 30 }
  ]

module _ {S : Type 0} (rt : Runtime S) where
  abbrev pub give_up : ℕ → AppError
  give_up max_attempts =
      vault_unreachable ("cert renewal failed after " <> (rt.show max_attempts <> " attempts"))

  -- The attempts that are left, the number of the next one, and the pause after it.
  unfoldable pub attempts : String → ℕ → ℕ → ℕ → ℕ → S → Result CertBundle AppError × S
  attempts service_name max_attempts zero attempt delay s = (err (give_up max_attempts), s)
  attempts service_name max_attempts (suc left) attempt delay s =
      let (r, s') = rt.renew service_name s in
      let paused = rt.sleep delay s' in
      let retried = attempts service_name max_attempts left (suc attempt) (2 * delay) paused in
      let last = attempts service_name max_attempts left (suc attempt) delay s' in
      elim r [
        | ok bundle ↦ (ok bundle, s')
        | err _ ↦ if ltb attempt max_attempts then retried else last
      ]

  unfoldable pub retry_renew : String → ℕ → S → Result CertBundle AppError × S
  unfolding attempts
  retry_renew service_name max_attempts s = attempts service_name max_attempts max_attempts 1 2 s

  module _ (tls : Rustls) where
    -- One turn of the loop.
    unfoldable pub round : String → Rotation tls × S → Rotation tls × S
    unfolding install retry_renew
    round service_name (r, s) =
        let (new_bundle, s') = retry_renew service_name 3 (rt.sleep (sleep_secs r.ttl) s) in
        (install tls new_bundle (rt.now s') r, s')

    -- `rotation_loop` never returns: its state after a number of turns.
    unfoldable pub rotation_loop : String → ℕ → Rotation tls × S → Rotation tls × S
    unfolding round
    rotation_loop service_name zero st = st
    rotation_loop service_name (suc n) st = rotation_loop service_name n (round service_name st)
