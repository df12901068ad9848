-- ===== src/Gateway/Startup/Laws.antt =====
-- What a gateway that has started holds, and who can log in to it.
use secure_net.Base.{
  ℕ, ◌+◌, ◌≤◌, String, ◌<>◌, [], ◌∷◌, ◌≡◌, ◌≢◌, inl, inr, some, arith, Option-cases, join_comma,
}
use secure_net.Base.Result.{Result, ok, err, Result-cases}
use secure_net.External.Hex.{Hex, Digest}
use secure_net.External.Rustls.{Rustls}
use secure_net.External.Host.{Host}
use secure_net.External.Otel.{Otel}
use secure_net.External.Jsonwebtoken.{Rsa}
use secure_net.External.Reqwest.{Fetch}
use secure_net.Shared.Errors.{auth_bad_credentials}
use secure_net.Shared.Models.{DateTime, LoginRequest, TokenResponse}
use secure_net.Shared.Exchange.{Transport}
use secure_net.Shared.Tls.{client_config}
use secure_net.Shared.Boot.{BootResult, mtls_client}
use secure_net.Shared.Startup.{var_or, telemetry, listen_addr}
use secure_net.Shared.Startup.Laws.{started_lem}
use secure_net.Gateway.Jwt.{seeded}
use secure_net.Gateway.Jwt.Laws.{authenticate-seeded}
use secure_net.Gateway.Middleware.{header_text}
use secure_net.Gateway.Proxy.{Deps, Value, Target, get_target, auth_token, handle}
use secure_net.Gateway.Proxy.Laws.{relayed, handle-auth_token, auth_token_refused_iff}
use secure_net.Gateway.Startup.{
  StartDraws, GatewayServer, gateway_server, keys, boot, start_gateway,
}

module _ (d : Deps) (tls : Rustls) (rsa : Rsa) (hex : Hex) (sha256 : Digest) (otel : Otel) where
  module _ {W : Type 0} (net : Transport d.json.Value W) (clock : W → DateTime) where
    -- What a gateway that has started came from.
    pub record IsStarted (host : Host) (draws : StartDraws) (machine_file : Result String String)
        (w : W) (g : GatewayServer d tls rsa) : Type 0 where
      pub b : BootResult hex sha256 d.json tls
      pub booted : (boot d tls rsa hex sha256 otel net clock host machine_file w).0 ≡ ok b
      pub keys_loaded : keys d tls rsa host draws.keys ≡ ok g.state.jwt_keys
      pub store : seeded d.bcrypt draws.alice_salt draws.admin_salt ≡ some g.state.user_store
      pub serial : g.state.cert_serial ≡ b.bundle.serial
      pub config : g.tls_config ≡ b.tls_config
      pub client : client_config tls b.bundle ≡ ok g.mtls_client
      pub user_svc_url :
          g.state.user_svc_url ≡ var_or host "USER_SERVICE_URL" "https://localhost:8001"
      pub order_svc_url :
          g.state.order_svc_url ≡ var_or host "ORDER_SERVICE_URL" "https://localhost:8002"

    pub start_gateway_lem :
        (host : Host) (draws : StartDraws) (machine_file : Result String String) (w : W)
        (g : GatewayServer d tls rsa)
        → (start_gateway d tls rsa hex sha256 otel net clock host draws machine_file w).0 ≡ ok g
        → IsStarted host draws machine_file w g
    unfolding start_gateway gateway_server mtls_client
    start_gateway_lem host draws machine_file w g h =
        let (traced, (b, booted, finished)) =
          started_lem (telemetry otel host "api-gateway")
            (boot d tls rsa hex sha256 otel net clock host machine_file)
            (gateway_server d tls rsa hex sha256 otel host draws) w g h in
        elim (Result-cases (keys d tls rsa host draws.keys)) [
          | inr (e, bad) ↦ absurd (ground arith)
          | inl (jwt_keys, loaded) ↦ elim (Result-cases (client_config tls b.bundle)) [
            | inr (e, bad) ↦ absurd (ground arith)
            | inl (client, made) ↦
                elim (Option-cases (seeded d.bcrypt draws.alice_salt draws.admin_salt)) [
                  | inl bad ↦ absurd (ground arith)
                  | inr (store, hashed) ↦ elim (Result-cases (listen_addr host "8080")) [
                    | inr (e, bad) ↦ absurd (ground arith)
                    | inl (addr, parsed) ↦ record {
                      b = b;
                      booted = booted;
                      keys_loaded = ground arith;
                      store = ground arith;
                      serial = ground arith;
                      config = ground arith;
                      client = ground arith;
                      user_svc_url = ground arith;
                      order_svc_url = ground arith;
                    }
                  ]
                ]
          ]
        ]

    -- In a gateway that has started, a token that the user "alice" got for her password opens every
    -- proxied route until an hour and a minute later, as the bearer token of the request, if the two
    -- keys are a pair and her name and role fit in headers.
    pub alice_logs_in :
        {V : Type 0} (fetch : Fetch (Value d) V) (host : Host) (draws : StartDraws)
        (machine_file : Result String String) (w : W) (g : GatewayServer d tls rsa) (issued now : ℕ)
        (headers : d.http.HeaderMap) (response : TokenResponse) (target : Target d) (v : V)
        (sub role : d.http.HeaderValue)
        → (start_gateway d tls rsa hex sha256 otel net clock host draws machine_file w).0 ≡ ok g
        → d.jwt.IsPair g.state.jwt_keys.encoding g.state.jwt_keys.decoding
        → auth_token d g.state issued (record { username = "alice"; password = "hunter2" })
          ≡ ok response
        → now ≤ issued + 3660
        → header_text d.jwt d.http headers "authorization"
          ≡ some ("Bearer " <> response.access_token)
        → d.http.parse "alice" ≡ ok sub
        → d.http.parse "user" ≡ ok role
        → handle d g.state now fetch headers (get_target target) v
          ≡ relayed d fetch g.state target v
    unfolding join_comma
    alice_logs_in fetch host draws machine_file w g issued now headers response target v sub role h
          pair given in_time sent good good' =
        let store = (start_gateway_lem host draws machine_file w g h).store in
        let alice =
          (authenticate-seeded d.bcrypt draws.alice_salt draws.admin_salt g.state.user_store
            store).0 in
        handle-auth_token d fetch g.state issued now headers
          (record { username = "alice"; password = "hunter2" }) response ("user" ∷ []) target v sub
          role pair alice given in_time sent good good'

    -- A login under a name other than "alice" and "admin" fails with any password.
    others_refused :
        (host : Host) (draws : StartDraws) (machine_file : Result String String) (w : W)
        (g : GatewayServer d tls rsa) (now : ℕ) (other : LoginRequest)
        → (start_gateway d tls rsa hex sha256 otel net clock host draws machine_file w).0 ≡ ok g
        → other.username ≢ "alice"
        → other.username ≢ "admin"
        → auth_token d g.state now other ≡ err auth_bad_credentials
    others_refused host draws machine_file w g now other h not_alice not_admin =
        let store = (start_gateway_lem host draws machine_file w g h).store in
        let rest =
          (authenticate-seeded d.bcrypt draws.alice_salt draws.admin_salt g.state.user_store
            store).2 in
        (auth_token_refused_iff d g.state now other).1 (elim (rest other.username other.password) [
          | inl refused ↦ refused
          | inr (inl e) ↦ absurd (not_alice e)
          | inr (inr e) ↦ absurd (not_admin e)
        ])
