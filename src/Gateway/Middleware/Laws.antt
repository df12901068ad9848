-- ===== src/Gateway/Middleware/Laws.antt =====
-- What the middleware lets through, and what the rest of the service sees then.
use secure_net.Base.{
  ℕ, ◌+◌, ◌≤◌, ◌≡◌, ◌≢◌, ap, ◌∙◌, inl, inr, String, ◌<>◌, some, List, arith, text_eq, eq_iff,
  Option-cases, strip_prefix, join_comma, strip_prefix-append, eq-append_of_strip_prefix,
}
use secure_net.Base.Result.{ok, Result-cases}
use secure_net.External.Jsonwebtoken.{Jsonwebtoken}
use secure_net.External.Http.{Http}
use secure_net.Shared.Models.{Claims}
use secure_net.Gateway.Jwt.{JwtKeys, sign, validate}
use secure_net.Gateway.Jwt.Laws.{validate-sign, validate-IsCurrent}
use secure_net.Gateway.Middleware.{header_text, inject_identity, admit, jwt_middleware}

module _ (j : Jsonwebtoken) (http : Http) (keys : JwtKeys j) (now : ℕ) where
  inject_identity_lem :
      (claims : Claims) (headers headers' : http.HeaderMap)
      → inject_identity j http claims headers ≡ ok headers'
      → (header_text j http headers' "x-user-id" ≡ some claims.sub)
        × (header_text j http headers' "x-user-roles" ≡ some (join_comma claims.roles))
        × ((name : String)
            → name ≢ "x-user-id"
            → name ≢ "x-user-roles"
            → http.get headers' name ≡ http.get headers name)
  unfolding inject_identity header_text
  inject_identity_lem claims headers headers' h = elim (Result-cases (http.parse claims.sub)) [
    | inr (e, bad) ↦ absurd (ground arith)
    | inl (sub, good) ↦ elim (Result-cases (http.parse (join_comma claims.roles))) [
      | inr (e, bad) ↦ absurd (ground arith)
      | inl (roles, good') ↦
          let with_sub = http.insert headers "x-user-id" sub in
          let read = http.to_str-parse claims.sub sub good in
          let read' = http.to_str-parse (join_comma claims.roles) roles good' in
          let same : headers' ≡ http.insert with_sub "x-user-roles" roles = ground arith in
          (
            ground (
              arith,
              http.get-insert with_sub "x-user-roles" "x-user-id" roles,
              http.get-insert headers "x-user-id" "x-user-id" sub,
            ),
            ground (arith, http.get-insert with_sub "x-user-roles" "x-user-roles" roles),
            λ name other other'. ground (
              arith,
              http.get-insert with_sub "x-user-roles" name roles,
              http.get-insert headers "x-user-id" name sub,
              eq_iff "x-user-roles" name,
              eq_iff "x-user-id" name,
            ),
          )
    ]
  ]

  -- What holds of a request that was let through, and of the headers that went on with it.
  pub record IsAdmitted (headers headers' : http.HeaderMap) : Type 0 where
    pub token : String
    pub claims : Claims
    pub bearer : header_text j http headers "authorization" ≡ some ("Bearer " <> token)
    pub valid : validate j keys token now ≡ ok claims
    pub unexpired : now ≤ claims.exp + 60
    pub issuer : claims.iss ≡ "securenet-gateway"
    pub user_id : header_text j http headers' "x-user-id" ≡ some claims.sub
    pub user_roles : header_text j http headers' "x-user-roles" ≡ some (join_comma claims.roles)
    pub others :
        (name : String)
        → name ≢ "x-user-id"
        → name ≢ "x-user-roles"
        → http.get headers' name ≡ http.get headers name

  pub admit-IsAdmitted :
      (headers headers' : http.HeaderMap)
      → admit j http keys now headers ≡ ok headers'
      → IsAdmitted headers headers'
  unfolding admit
  admit-IsAdmitted headers headers' h =
      elim (Option-cases (header_text j http headers "authorization")) [
        | inl absent ↦ absurd (ground arith)
        | inr (text, present) ↦ elim (Option-cases (strip_prefix "Bearer " text)) [
          | inl malformed ↦ absurd (ground arith)
          | inr (token, stripped) ↦ elim (Result-cases (validate j keys token now)) [
            | inr (e, invalid) ↦ absurd (ground arith)
            | inl (claims, valid) ↦
                let (user_id, user_roles, others) =
                  inject_identity_lem claims headers headers' (ground arith) in
                let (unexpired, issuer) = validate-IsCurrent j keys token now claims valid in
                record {
                  token = token;
                  claims = claims;
                  bearer = present ∙ ap some (eq-append_of_strip_prefix "Bearer " text stripped);
                  valid = valid;
                  unexpired = unexpired;
                  issuer = issuer;
                  user_id = user_id;
                  user_roles = user_roles;
                  others = others;
                }
          ]
        ]
      ]

  -- The rest of the service runs only for a request whose Authorization header is "Bearer " and a
  -- token that is validated, comes from this gateway and expired a minute ago at most; it sees the
  -- token's subject and roles in the identity headers, whatever the client sent there, and the
  -- client's other headers.
  pub jwt_middleware-IsAdmitted :
      {R : Type 0} (next : http.HeaderMap → R) (headers : http.HeaderMap) (r : R)
      → jwt_middleware j http keys now next headers ≡ ok r
      → (headers' : http.HeaderMap) × (r ≡ next headers') × IsAdmitted headers headers'
  unfolding jwt_middleware
  jwt_middleware-IsAdmitted next headers r h = elim (Result-cases (admit j http keys now headers)) [
    | inr (e, refused) ↦ absurd (ground arith)
    | inl (headers', admitted) ↦
        (headers', ground arith, admit-IsAdmitted headers headers' admitted)
  ]

  -- A request that carries a token which the gateway signed for a user is admitted until an hour and
  -- a minute after the signature, with that user's name and roles in the headers.
  pub admit-sign :
      (headers : http.HeaderMap) (username : String) (roles : List String) (issued : ℕ)
      (token : String) (sub joined : http.HeaderValue)
      → j.IsPair keys.encoding keys.decoding
      → sign j keys username roles issued ≡ ok token
      → now ≤ issued + 3660
      → header_text j http headers "authorization" ≡ some ("Bearer " <> token)
      → http.parse username ≡ ok sub
      → http.parse (join_comma roles) ≡ ok joined
      → admit j http keys now headers
        ≡ ok (http.insert (http.insert headers "x-user-id" sub) "x-user-roles" joined)
  unfolding admit
  admit-sign headers username roles issued token sub joined pair signed in_time sent good good' =
      ground (
        arith,
        strip_prefix-append "Bearer " token,
        validate-sign j keys username roles issued now token pair signed in_time,
      )
