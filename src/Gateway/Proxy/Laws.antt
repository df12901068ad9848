-- ===== src/Gateway/Proxy/Laws.antt =====
-- What the gateway's clients get, and when another service is asked.
use secure_net.Base.{
  ℕ, ◌+◌, ◌≤◌, ◌≡◌, ◌≢◌, ◌↔◌, ◌⊎◌, refl, sym, ap, ◌∙◌, inl, inr, String, ◌<>◌, true, false, none,
  some, List, arith, Option-cases, Bool-cases, leb, ltb, ◌&&◌, join_comma, text_eq,
}
use secure_net.Base.Result.{ok, err, Result-cases}
use secure_net.External.Reqwest.{HttpResponse, Fetch, is_success}
use secure_net.Shared.Errors.{auth_bad_credentials}
use secure_net.Shared.Models.{LoginRequest, TokenResponse}
use secure_net.Gateway.Jwt.{authenticate, sign}
use secure_net.Gateway.Middleware.{header_text, admit, jwt_middleware}
use secure_net.Gateway.Middleware.Laws.{IsAdmitted, admit-IsAdmitted, admit-sign}
use secure_net.Gateway.Proxy.{
  Deps, AppState, Value, Target, Request, get_target, Reply, proxied, proxy_get, target_url, proxy,
  auth_token, handle,
}

module _ (d : Deps) {W : Type 0} (fetch : Fetch (Value d) W) where
  -- A proxied body is returned exactly if the upstream answered with a success status and a body
  -- that parses, and it is that body.
  pub proxy_get_iff :
      (url : String) (body : Value d) (w : W)
      → ((proxy_get d fetch url w).0 ≡ ok body) ↔ (
          (resp : HttpResponse (Value d)) × ((fetch url w).0 ≡ ok resp)
          × (resp.json ≡ ok body)
          × (is_success resp.status ≡ true))
  unfolding proxy_get
  proxy_get_iff url body w = (
    λ h. elim (Result-cases (fetch url w).0) [
      | inr (e, failed) ↦ absurd (ground arith)
      | inl (resp, answered) ↦ (resp, ground arith, ground arith, ground arith)
    ],
    λ (resp, answered, parsed, success). ground arith,
  )

  -- An error is never a success status: it is the upstream's own status and body, or 502 where the
  -- upstream gave no response, no JSON or a status out of range.
  pub proxy_get_error :
      (url : String) (status : ℕ) (body : Value d) (w : W)
      → (proxy_get d fetch url w).0 ≡ err (status, body)
      → (is_success status ≡ false)
        × ((status ≡ 502)
            ⊎ ((resp : HttpResponse (Value d)) × ((fetch url w).0 ≡ ok resp)
                × (resp.json ≡ ok body)
                × (resp.status ≡ status)))
  unfolding proxy_get
  proxy_get_error url status body w h = elim (Result-cases (fetch url w).0) [
    | inr (e, failed) ↦ (ground arith, inl (ground arith))
    | inl (resp, answered) ↦ elim (Result-cases resp.json) [
      | inr (e, bad) ↦ (ground arith, inl (ground arith))
      | inl (b, parsed) ↦ elim (Bool-cases (leb 100 resp.status && ltb resp.status 1000)) [
        | inl valid ↦ (ground arith, inr (resp, answered, ground arith, ground arith))
        | inr odd ↦ (ground arith, inl (ground arith))
      ]
    ]
  ]

  -- What a proxied request leads to once it is admitted.
  abbrev pub relayed : AppState d → Target d → W → Reply d × W
  relayed s target w = (
    proxied (proxy_get d fetch (target_url d s target) w).0,
    (proxy_get d fetch (target_url d s target) w).1,
  )

  pub admitted_lem :
      (s : AppState d) (now : ℕ) (headers headers' : d.http.HeaderMap) (target : Target d) (w : W)
      → admit d.jwt d.http s.jwt_keys now headers ≡ ok headers'
      → handle d s now fetch headers (get_target target) w ≡ relayed s target w
  unfolding handle proxy jwt_middleware
  admitted_lem s now headers headers' target w admitted = rw admitted refl

  -- Only a request for a proxied route whose token the middleware admits has an effect outside the
  -- gateway: it is one GET of the route's URL, and the upstream's answer is relayed.
  pub handle_asks :
      (s : AppState d) (now : ℕ) (headers : d.http.HeaderMap) (req : Request d) (w : W)
      → (handle d s now fetch headers req w).1 ≢ w
      → (target : Target d) × (headers' : d.http.HeaderMap) × (req ≡ get_target target)
        × IsAdmitted d.jwt d.http s.jwt_keys now headers headers'
        × (handle d s now fetch headers req w ≡ relayed s target w)
  unfolding handle jwt_middleware
  handle_asks s now headers (get_target target) w asked =
      elim (Result-cases (admit d.jwt d.http s.jwt_keys now headers)) [
        | inr (e, refused) ↦ absurd (asked (rw refused refl))
        | inl (headers', admitted) ↦ (
          target,
          headers',
          refl,
          admit-IsAdmitted d.jwt d.http s.jwt_keys now headers headers' admitted,
          admitted_lem s now headers headers' target w admitted,
        )
      ]
  handle_asks s now headers (Request.post_auth_token req) w asked = absurd (asked refl)
  handle_asks s now headers Request.get_health w asked = absurd (asked refl)

  -- Once the middleware admits it, a request for a proxied route is answered alike whatever the user
  -- and the roles in its token: the roles have no say, and the identity headers are not sent on.
  pub handle_same_for_all :
      (s : AppState d) (now now' : ℕ) (headers headers' passed passed' : d.http.HeaderMap)
      (target : Target d) (w : W)
      → admit d.jwt d.http s.jwt_keys now headers ≡ ok passed
      → admit d.jwt d.http s.jwt_keys now' headers' ≡ ok passed'
      → handle d s now fetch headers (get_target target) w
        ≡ handle d s now' fetch headers' (get_target target) w
  handle_same_for_all s now now' headers headers' passed passed' target w admitted admitted' =
      admitted_lem s now headers passed target w admitted
      ∙ sym (admitted_lem s now' headers' passed' target w admitted')

  -- A user who logs in can use the token on every proxied route until an hour and a minute later,
  -- as the bearer token of the request: the request goes upstream and the upstream's answer comes
  -- back, if the gateway's two keys are a pair and the user's name and roles fit in headers.
  pub handle-auth_token :
      (s : AppState d) (issued now : ℕ) (headers : d.http.HeaderMap) (req : LoginRequest)
      (response : TokenResponse) (roles : List String) (target : Target d) (w : W)
      (sub joined : d.http.HeaderValue)
      → d.jwt.IsPair s.jwt_keys.encoding s.jwt_keys.decoding
      → authenticate d.bcrypt s.user_store req.username req.password ≡ some roles
      → auth_token d s issued req ≡ ok response
      → now ≤ issued + 3660
      → header_text d.jwt d.http headers "authorization" ≡ some ("Bearer " <> response.access_token)
      → d.http.parse req.username ≡ ok sub
      → d.http.parse (join_comma roles) ≡ ok joined
      → handle d s now fetch headers (get_target target) w ≡ relayed s target w
  unfolding auth_token
  handle-auth_token s issued now headers req response roles target w sub joined pair known given
        in_time sent good good' =
      elim (Result-cases (sign d.jwt s.jwt_keys req.username roles issued)) [
        | inr (e, failed) ↦ absurd (ground arith)
        | inl (t, signed) ↦
            let same : t ≡ response.access_token = ground arith in
            let passed =
              admit-sign d.jwt d.http s.jwt_keys now headers req.username roles issued
                response.access_token sub joined pair (signed ∙ ap ok same) in_time sent good
                good' in
            admitted_lem s now headers _ target w passed
      ]

module _ (d : Deps) where
  -- A login fails with 401 exactly if the credentials are refused, with one answer for an unknown
  -- name and for a wrong password.
  pub auth_token_refused_iff :
      (s : AppState d) (now : ℕ) (req : LoginRequest)
      → (auth_token d s now req ≡ err auth_bad_credentials)
        ↔ (authenticate d.bcrypt s.user_store req.username req.password ≡ none)
  unfolding auth_token sign
  auth_token_refused_iff s now req =
      elim (Option-cases (authenticate d.bcrypt s.user_store req.username req.password)) [
        | inl bad ↦ (λ h. bad, λ h. ground arith)
        | inr (roles, good) ↦ (λ h. absurd (ground arith), λ h. absurd (ground arith))
      ]
