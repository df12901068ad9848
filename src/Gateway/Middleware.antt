-- ===== src/Gateway/Middleware.antt =====
-- api-gateway/src/middleware.rs: the check of the bearer token in front of the proxied routes.
pub mod Laws
use secure_net.Base.{ℕ, String, Option, none, some, strip_prefix, join_comma}
use secure_net.Base.Result.{Result, ok, err, ok_or, map_err, to_option, ◌>>=◌}
use secure_net.External.Jsonwebtoken.{Jsonwebtoken}
use secure_net.External.Http.{Http}
use secure_net.Shared.Errors.{AppError, internal, auth_missing_token}
use secure_net.Shared.Models.{Claims}
use secure_net.Gateway.Jwt.{JwtKeys, validate}

module _ (j : Jsonwebtoken) (http : Http) where
  -- `.headers().get(AUTHORIZATION).and_then(|v| v.to_str().ok())`
  unfoldable pub header_text : http.HeaderMap → String → Option String
  header_text headers name = elim (http.get headers name) [
    | none ↦ none
    | some value ↦ to_option (http.to_str value)
  ]

  unfoldable pub inject_identity : Claims → http.HeaderMap → Result http.HeaderMap AppError
  inject_identity claims headers = do
    sub ← map_err (λ _. internal "bad sub") (http.parse claims.sub)
    let headers' = http.insert headers "x-user-id" sub
    roles ← map_err (λ _. internal "bad roles") (http.parse (join_comma claims.roles))
    ok (http.insert headers' "x-user-roles" roles)

  -- The headers that go on with the request.
  unfoldable pub admit : JwtKeys j → ℕ → http.HeaderMap → Result http.HeaderMap AppError
  unfolding header_text inject_identity
  admit keys now headers = do
    auth_header ← ok_or auth_missing_token (header_text headers "authorization")
    token ← ok_or auth_missing_token (strip_prefix "Bearer " auth_header)
    claims ← validate j keys token now
    inject_identity claims headers

  -- `next` is the rest of the service, on the request's headers.
  unfoldable pub jwt_middleware :
      {R : Type 0} → JwtKeys j → ℕ → (http.HeaderMap → R) → http.HeaderMap → Result R AppError
  unfolding admit
  jwt_middleware keys now next headers = do headers' ← admit keys now headers; ok (next headers')
