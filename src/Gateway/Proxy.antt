-- ===== src/Gateway/Proxy.antt =====
-- api-gateway/src/main.rs: the handlers, the proxies and the router.
pub mod Laws
use secure_net.Base.{
  ℕ, String, ◌<>◌, Bool, true, false, Option, none, some, List, [], ◌∷◌, ◌&&◌, leb, ltb, not,
  if◌then◌else◌,
}
use secure_net.Base.Result.{Result, ok, err, ok_or, map_err, ◌>>=◌}
use secure_net.External.Json.{Json}
use secure_net.External.Http.{Http}
use secure_net.External.Jsonwebtoken.{Jsonwebtoken, Bcrypt}
use secure_net.External.Reqwest.{HttpResponse, Fetch, is_success}
use secure_net.Shared.Errors.{AppError, auth_bad_credentials}
use secure_net.Shared.Models.{LoginRequest, TokenResponse}
use secure_net.Gateway.Jwt.{JwtKeys, UserStore, authenticate, sign}
use secure_net.Gateway.Middleware.{jwt_middleware}

pub record Deps : Type 1 where
  pub json : Json
  pub http : Http
  pub jwt : Jsonwebtoken
  pub bcrypt : Bcrypt

module _ (d : Deps) where
  pub record AppState : Type 0 where
    pub jwt_keys : JwtKeys d.jwt
    pub user_store : UserStore
    pub user_svc_url : String
    pub order_svc_url : String
    pub cert_serial : String

  abbrev pub Value : Type 0
  Value = d.json.Value

  -- The body, or a status with a body.
  abbrev pub Proxied : Type 0
  Proxied = Result Value (ℕ × Value)

  -- `StatusCode::from_u16(n).unwrap_or(BAD_GATEWAY)`
  abbrev or_bad_gateway : ℕ → ℕ
  or_bad_gateway n = if leb 100 n && ltb n 1000 then n else 502

  abbrev forward : ℕ → Value → Proxied
  forward status body =
      if not (is_success status) then err (or_bad_gateway status, body) else ok body

  abbrev parse_error : String → ℕ × Value
  parse_error e = (
    502,
    d.json.object (("error", d.json.string "PARSE_ERROR") ∷ ("message", d.json.string e) ∷ []),
  )

  abbrev upstream_error : String → String → ℕ × Value
  upstream_error url e = (
    502,
    d.json.object (
        ("error", d.json.string "UPSTREAM_ERROR")
        ∷ ("message", d.json.string e)
        ∷ ("url", d.json.string url)
        ∷ []),
  )

  -- What is made of the upstream's answer.
  unfoldable pub relay : String → Result (HttpResponse Value) String → Proxied
  relay url answer = do
    resp ← map_err (upstream_error url) answer
    body ← map_err parse_error resp.json
    forward resp.status body

  -- `W` is the world that a request to another service changes.
  unfoldable pub proxy_get : {W : Type 0} → Fetch Value W → String → W → Proxied × W
  unfolding relay
  proxy_get fetch url w = let (answer, w') = fetch url w in (relay url answer, w')

  -- The proxied routes, with the path parameter.
  pub data Target : Type 0 where
    user : String → Target
    users : Target
    order : String → Target
    orders : Target

  unfoldable pub target_url : AppState → Target → String
  target_url s (user id) = s.user_svc_url <> ("/users/" <> id)
  target_url s users = s.user_svc_url <> "/users"
  target_url s (order id) = s.order_svc_url <> ("/orders/" <> id)
  target_url s orders = s.order_svc_url <> "/orders"

  -- `proxy_user`, `proxy_users`, `proxy_order` and `proxy_orders`. The request's headers are not read.
  unfoldable pub proxy :
      {W : Type 0} → AppState → Fetch Value W → Target → d.http.HeaderMap → W → Proxied × W
  proxy s fetch target headers = proxy_get fetch (target_url s target)

  unfoldable pub auth_token : AppState → ℕ → LoginRequest → Result TokenResponse AppError
  auth_token s now req = do
    roles ←
        ok_or auth_bad_credentials (authenticate d.bcrypt s.user_store req.username req.password)
    token ← sign d.jwt s.jwt_keys req.username roles now
    ok (record { access_token = token; token_type = "Bearer"; expires_in = 3600 })

  unfoldable pub health : AppState → Value
  health s = d.json.object (
      ("status", d.json.string "ok")
      ∷ ("service", d.json.string "api-gateway")
      ∷ ("sealed", d.json.bool false)
      ∷ ("cert_serial", d.json.string s.cert_serial)
      ∷ [])

  pub data Request : Type 0 where
    post_auth_token : LoginRequest → Request
    get_health : Request
    get_target : Target → Request

  pub data Reply : Type 0 where
    token : Result TokenResponse AppError → Reply
    status : Value → Reply
    refused : AppError → Reply
    proxied : Proxied → Reply

  -- A refusal, or the handler behind the middleware.
  unfoldable pub after_middleware : {W : Type 0} → Result (W → Proxied × W) AppError → W → Reply × W
  after_middleware (err e) w = (refused e, w)
  after_middleware (ok handler) w = let (reply, w') = handler w in (proxied reply, w')

  -- The router: the middleware is a layer of the proxied routes only.
  unfoldable pub handle :
      {W : Type 0} → AppState → ℕ → Fetch Value W → d.http.HeaderMap → Request → W → Reply × W
  unfolding after_middleware health
  handle s now fetch headers (post_auth_token req) w = (token (auth_token s now req), w)
  handle s now fetch headers get_health w = (status (health s), w)
  handle s now fetch headers (get_target target) w =
      after_middleware (jwt_middleware d.jwt d.http s.jwt_keys now (proxy s fetch target) headers) w
