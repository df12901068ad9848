-- ===== src/Services/Startup/Laws.antt =====
-- What a backend service that has started serves, with which certificate and to whom.
use mathlib.Core.List.{Memᴰ}
use secure_net.Base.{String, List, ◌∷◌, ◌≡◌, ◌≢◌, inl, inr, sym, ap, ◌∙◌, subst, false, arith}
use secure_net.Base.Result.{Result, ok, Result-cases}
use secure_net.External.Hex.{Hex, Digest}
use secure_net.External.Json.{Json}
use secure_net.External.Rustls.{Rustls}
use secure_net.External.Host.{Host}
use secure_net.External.Otel.{Otel}
use secure_net.Shared.Errors.{AppError}
use secure_net.Shared.Models.{CertBundle, DateTime}
use secure_net.Shared.Exchange.{Transport}
use secure_net.Shared.Identity
use secure_net.Shared.Identity.{unseal}
use secure_net.Shared.Tls.{build_root_store, server_config, client_config}
use secure_net.Shared.Rotation.{new, RotatingTlsConfig}
use secure_net.Shared.Boot.{BootResult, run, mtls_client}
use secure_net.Shared.Startup.{var_or, telemetry, listen_addr}
use secure_net.Shared.Startup.Laws.{started_lem}
use secure_net.Services.Users
use secure_net.Services.Orders.{seed_orders}
use secure_net.Services.Accept.{
  Hyper, Connection, LoopEvent, Event, swaps, Merge, serve_mtls, connection_task,
}
use secure_net.Services.Accept.Trust.{granted, served_only_verified}
use secure_net.Services.Startup.{
  Server, OrderServer, user_server, order_server, boot, start_user, start_order,
}

new-built :
    (tls : Rustls) (bundle : CertBundle) (c : RotatingTlsConfig tls)
    → new tls bundle ≡ ok c
    → (server_config tls bundle ≡ ok c.inner) × (c.serial ≡ bundle.serial)
unfolding new
new-built tls bundle c h = elim (Result-cases (server_config tls bundle)) [
  | inr (e, bad) ↦ absurd (ground arith)
  | inl (config, built) ↦ (ground arith, ground arith)
]

module _ (tls : Rustls) (hex : Hex) (sha256 : Digest) (json : Json) (otel : Otel) where
  module _ {W : Type 0} (net : Transport json.Value W) (clock : W → DateTime) where
    -- The configuration of a boot result is that of its bundle.
    run-built :
        (machine_file : Result String String) (service_name vault_url : String) (w : W)
        (b : BootResult hex sha256 json tls)
        → (run hex sha256 json tls net clock machine_file service_name vault_url w).0 ≡ ok b
        → (server_config tls b.bundle ≡ ok b.tls_config.inner)
          × (b.tls_config.serial ≡ b.bundle.serial)
    unfolding run
    run-built machine_file service_name vault_url w b h =
        let attempt =
          (unseal hex sha256 json net machine_file vault_url (Identity.new service_name) w).0 in
        elim (Result-cases attempt.result) [
          | inr (e, failed) ↦ absurd (ground arith)
          | inl (bundle, granted) ↦ elim (Result-cases (new tls bundle)) [
            | inr (e, failed) ↦ absurd (ground arith)
            | inl (c, built) ↦
                let same : (b.bundle ≡ bundle) × (b.tls_config ≡ c) =
                  (ground arith, ground arith) in
                subst
                  (λ b'.
                    (server_config tls b' ≡ ok b.tls_config.inner)
                    × (b.tls_config.serial ≡ b'.serial))
                  (sym same.0)
                  (subst
                    (λ c'. (server_config tls bundle ≡ ok c'.inner) × (c'.serial ≡ bundle.serial))
                    (sym same.1) (new-built tls bundle c built))
          ]
        ]

    -- An order service that has started serves with the bundle that the vault granted, reports that
    -- bundle's serial number, calls the user service at the configured address, and shows the same
    -- bundle's certificate there.
    pub start_order_lem :
        (host : Host) (machine_file : Result String String) (w : W) (s : OrderServer tls)
        → (start_order tls hex sha256 json otel net clock host machine_file w).0 ≡ ok s
        → (b : BootResult hex sha256 json tls) × ((boot tls hex sha256 json otel net clock host
              machine_file "order-service" w).0
            ≡ ok b)
          × (server_config tls b.bundle ≡ ok s.server.tls_config.inner)
          × (s.server.tls_config.serial ≡ s.server.state.cert_serial)
          × (s.server.state.cert_serial ≡ b.bundle.serial)
          × (s.server.state.user_svc_url ≡ var_or host "USER_SERVICE_URL" "https://localhost:8001")
          × (client_config tls b.bundle ≡ ok s.mtls_client)
          × (s.server.state.orders ≡ seed_orders)
    unfolding start_order order_server mtls_client
    start_order_lem host machine_file w s h =
        let (traced, (b, booted, finished)) =
          started_lem (telemetry otel host "order-service")
            (boot tls hex sha256 json otel net clock host machine_file "order-service")
            (order_server tls hex sha256 json otel host) w s h in
        let (built, serial) =
          run-built machine_file "order-service" (var_or host "VAULT_URL" "http://localhost:8003") w
            b booted in
        elim (Result-cases (client_config tls b.bundle)) [
          | inr (e, bad) ↦ absurd (ground arith)
          | inl (client, made) ↦ elim (Result-cases (listen_addr host "8002")) [
            | inr (e, bad) ↦ absurd (ground arith)
            | inl (addr, parsed) ↦ (
              b,
              booted,
              ground arith,
              ground arith,
              ground arith,
              ground arith,
              ground arith,
              ground arith,
            )
          ]
        ]

    -- A user service that has started has the seeded users.
    pub start_user_lem :
        (host : Host) (machine_file : Result String String) (w : W) (s : Server tls Users.AppState)
        → (start_user tls hex sha256 json otel net clock host machine_file w).0 ≡ ok s
        → s.state.users ≡ Users.seed_users
    unfolding start_user user_server
    start_user_lem host machine_file w s h =
        let (traced, (b, booted, finished)) =
          started_lem (telemetry otel host "user-service")
            (boot tls hex sha256 json otel net clock host machine_file "user-service")
            (user_server tls hex sha256 json otel host) w s h in
        elim (Result-cases (listen_addr host "8001")) [
          | inr (e, bad) ↦ absurd (ground arith)
          | inl (addr, parsed) ↦ ground arith
        ]

    -- A request changes something in a user service that has started only if the client showed a
    -- certificate that the verifier accepts whose roots are the CA of the bundle of the boot or of one
    -- that a renewal gave, whatever the order of the loop's steps and the writes of the rotation
    -- task. This supposes that a handshake succeeds only with such a client if the configuration has a
    -- verifier.
    pub user_service_verifies :
        {Stream : Type 0} (hyper : Hyper tls.ServerConfig Stream) {V : Type 0}
        (IsVerified : tls.ClientCertVerifier → Stream → Type 0)
        (app : hyper.Request → V → Result hyper.Response String × V) (host : Host)
        (machine_file : Result String String) (w : W) (s : Server tls Users.AppState)
        (bound : Result (Unit {0}) String) (rs : List (Result CertBundle AppError))
        {ls : List (LoopEvent tls Stream)} {es : List (Event tls Stream)}
        (connection : Connection tls Stream) (v : V)
        → ((verifier : tls.ClientCertVerifier) (chain : List tls.CertificateDer)
              (key : tls.PrivateKeyDer) (config : tls.ServerConfig) (stream : Stream)
              (t : hyper.TlsStream)
            → tls.server_with_client_auth verifier chain key ≡ ok config
            → hyper.accept config stream ≡ ok t
            → IsVerified verifier stream)
        → (start_user tls hex sha256 json otel net clock host machine_file w).0 ≡ ok s
        → Merge tls Stream ls (swaps tls Stream false rs) es
        → Memᴰ connection (serve_mtls tls Stream bound s.tls_config es).connections
        → connection_task tls Stream hyper app connection v ≢ v
        → (b : BootResult hex sha256 json tls) × ((boot tls hex sha256 json otel net clock host
              machine_file "user-service" w).0
            ≡ ok b)
          × ((bundle : CertBundle) × Memᴰ bundle (b.bundle ∷ granted rs)
              × (store : tls.RootCertStore) × (verifier : tls.ClientCertVerifier)
              × (build_root_store tls bundle.ca_pem ≡ ok store)
              × (tls.client_cert_verifier store ≡ ok verifier)
              × IsVerified verifier connection.stream)
    unfolding start_user user_server
    user_service_verifies {Stream} hyper IsVerified app host machine_file w s bound rs connection v
          handshake h m at effect =
        let (traced, (b, booted, finished)) =
          started_lem (telemetry otel host "user-service")
            (boot tls hex sha256 json otel net clock host machine_file "user-service")
            (user_server tls hex sha256 json otel host) w s h in
        let (built, serial) =
          run-built machine_file "user-service" (var_or host "VAULT_URL" "http://localhost:8003") w
            b booted in
        let same : b.tls_config ≡ s.tls_config = elim (Result-cases (listen_addr host "8001")) [
          | inr (e, bad) ↦ absurd (ground arith)
          | inl (addr, parsed) ↦ ground arith
        ] in
        (
          b,
          booted,
          served_only_verified tls Stream hyper IsVerified app b.bundle s.tls_config bound rs
              connection v handshake (built ∙ ap (λ c. ok c.inner) same) m at effect,
        )
