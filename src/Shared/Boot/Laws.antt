-- ===== src/Shared/Boot/Laws.antt =====
-- What a service that has booted holds.
use secure_net.Base.{String, ◌≡◌, ◌⊎◌, inl, inr, refl, sym, subst, true, false, Bool, some, arith}
use secure_net.Base.Result.{Result, ok, Result-cases}
use secure_net.External.Hex.{Hex, Digest}
use secure_net.External.Json.{Json}
use secure_net.External.Rustls.{Rustls}
use secure_net.Shared.Models.{CertBundle, DateTime, ttl_secs}
use secure_net.Shared.Exchange.{Transport}
use secure_net.Shared.Identity
use secure_net.Shared.Identity.{serving, unseal}
use secure_net.Shared.Identity.Laws.{unseal_adopts}
use secure_net.Shared.Rotation.{RotatingTlsConfig, config_for, new, new_gateway}
use secure_net.Shared.Tls.{server_config, gateway_server_config}
use secure_net.Shared.Rotation.Laws.{IsConsistent, new-IsConsistent}
use secure_net.Shared.Boot.{BootResult, booted, run, run_gateway}

rotating_serial :
    (tls : Rustls) (bundle : CertBundle) (c : RotatingTlsConfig tls)
    → (new tls bundle ≡ ok c) ⊎ (new_gateway tls bundle ≡ ok c)
    → c.serial ≡ bundle.serial
unfolding new new_gateway
rotating_serial tls bundle c (inl h) = ground arith
rotating_serial tls bundle c (inr h) = ground arith

rotating_built :
    (tls : Rustls) (bundle : CertBundle) (c : RotatingTlsConfig tls)
    → (new tls bundle ≡ ok c → config_for tls false bundle ≡ ok c.inner)
      × (new_gateway tls bundle ≡ ok c → config_for tls true bundle ≡ ok c.inner)
unfolding new new_gateway config_for
rotating_built tls bundle c = (
  λ h. elim (Result-cases (server_config tls bundle)) [
    | inr (e, bad) ↦ absurd (ground arith)
    | inl (config, made) ↦ ground arith
  ],
  λ h. elim (Result-cases (gateway_server_config tls bundle)) [
    | inr (e, bad) ↦ absurd (ground arith)
    | inl (config, made) ↦ ground arith
  ],
)

module _ (hex : Hex) (sha256 : Digest) (json : Json) (tls : Rustls) where
  -- The parts of a boot result agree on one bundle, as of the given time.
  pub record IsBooted (service_name vault_url : String) (now : DateTime) (is_gateway : Bool)
      (b : BootResult hex sha256 json tls) : Type 0 where
    pub identity :
        b.identity ≡ record { state = serving; bundle = some b.bundle; service_name = service_name }
    pub client : b.vault.bundle ≡ some b.bundle
    pub address : b.vault.vault_url ≡ vault_url
    pub config : IsConsistent tls b.tls_config
    pub built : config_for tls is_gateway b.bundle ≡ ok b.tls_config.inner
    pub serial : b.tls_config.serial ≡ b.bundle.serial
    pub gateway : b.tls_config.is_gateway ≡ is_gateway
    pub task : b.rotation ≡ record { config = b.tls_config; ttl = ttl_secs b.bundle now }

  module _ {W : Type 0} (net : Transport json.Value W) (clock : W → DateTime) where
    -- A service that has booted serves with the bundle that the vault granted; its client, which asks
    -- the vault that granted it, its TLS configuration and its renewal task start from the same
    -- bundle, the task with the bundle's remaining lifetime, and its clients must have certificates.
    pub run-IsBooted :
        (machine_file : Result String String) (service_name vault_url : String) (w : W)
        (b : BootResult hex sha256 json tls)
        → (run hex sha256 json tls net clock machine_file service_name vault_url w).0 ≡ ok b
        → IsBooted service_name vault_url
            (clock (run hex sha256 json tls net clock machine_file service_name vault_url w).1)
            false
            b
    unfolding run
    run-IsBooted machine_file service_name vault_url w b h =
        let id = Identity.new service_name in
        let attempt = (unseal hex sha256 json net machine_file vault_url id w).0 in
        let now = clock (unseal hex sha256 json net machine_file vault_url id w).1 in
        elim (Result-cases attempt.result) [
          | inr (e, failed) ↦ absurd (ground arith)
          | inl (bundle, granted) ↦ elim (Result-cases (new tls bundle)) [
            | inr (e, failed) ↦ absurd (ground arith)
            | inl (c, built) ↦
                let same : b
                    ≡ booted hex sha256 json tls service_name vault_url now attempt.identity bundle
                        c =
                  ground arith in
                let (consistent, kind) = (new-IsConsistent tls bundle c).0 built in
                subst (IsBooted service_name vault_url _ _) (sym same) (record {
                  identity =
                      unseal_adopts hex sha256 json net machine_file vault_url id w bundle granted;
                  client = refl;
                  address = refl;
                  config = consistent;
                  built = (rotating_built tls bundle c).0 built;
                  serial = rotating_serial tls bundle c (inl built);
                  gateway = kind;
                  task = refl;
                })
          ]
        ]

    -- The same holds of the gateway, but that its clients need no certificates.
    pub run_gateway-IsBooted :
        (machine_file : Result String String) (service_name vault_url : String) (w : W)
        (b : BootResult hex sha256 json tls)
        → (run_gateway hex sha256 json tls net clock machine_file service_name vault_url w).0 ≡ ok b
        → IsBooted service_name vault_url
            (clock
              (run_gateway hex sha256 json tls net clock machine_file service_name vault_url w).1)
            true
            b
    unfolding run_gateway
    run_gateway-IsBooted machine_file service_name vault_url w b h =
        let id = Identity.new service_name in
        let attempt = (unseal hex sha256 json net machine_file vault_url id w).0 in
        let now = clock (unseal hex sha256 json net machine_file vault_url id w).1 in
        elim (Result-cases attempt.result) [
          | inr (e, failed) ↦ absurd (ground arith)
          | inl (bundle, granted) ↦ elim (Result-cases (new_gateway tls bundle)) [
            | inr (e, failed) ↦ absurd (ground arith)
            | inl (c, built) ↦
                let same : b
                    ≡ booted hex sha256 json tls service_name vault_url now attempt.identity bundle
                        c =
                  ground arith in
                let (consistent, kind) = (new-IsConsistent tls bundle c).1 built in
                subst (IsBooted service_name vault_url _ _) (sym same) (record {
                  identity =
                      unseal_adopts hex sha256 json net machine_file vault_url id w bundle granted;
                  client = refl;
                  address = refl;
                  config = consistent;
                  built = (rotating_built tls bundle c).1 built;
                  serial = rotating_serial tls bundle c (inr built);
                  gateway = kind;
                  task = refl;
                })
          ]
        ]
