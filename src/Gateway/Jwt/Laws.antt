-- ===== src/Gateway/Jwt/Laws.antt =====
-- Credentials and tokens: who gets one, and how long it is good for.
use mathlib.Core.List.{Memᴰ}
use secure_net.Base.{
  ℕ, ◌+◌, ◌≤◌, ◌≡◌, ◌↔◌, ◌⊎◌, refl, ap, ◌∙◌, inl, inr, String, true, none, some, List, [], ◌∷◌,
  arith, text_eq, eq_iff, Option-cases,
}
use secure_net.Base.Result.{ok, err, Result-cases}
use secure_net.Base.HashMap.{get, insert, remove}
use secure_net.External.Jsonwebtoken.{Jsonwebtoken, rs256, Bcrypt, IsCurrent}
use secure_net.Shared.Errors.{AppError, status_code}
use secure_net.Shared.Models.{Claims}
use secure_net.Gateway.Jwt.{
  JwtKeys, UserStore, sign, validate, validation, new_claims, seeded, authenticate,
}

module _ (bcrypt : Bcrypt) where
  -- The roles of a user are handed out exactly if the store has them for that name beside a hash
  -- that bcrypt verifies against the password.
  pub authenticate_iff :
      (store : UserStore) (username password : String) (roles : List String)
      → (authenticate bcrypt store username password ≡ some roles) ↔ (
          (hash : String) × (get username store ≡ some (hash, roles))
          × (bcrypt.verify password hash ≡ ok true))
  unfolding authenticate
  authenticate_iff store username password roles = elim (Option-cases (get username store)) [
    | inl unknown ↦ (λ h. absurd (ground arith), λ h. absurd (ground arith))
    | inr ((hash, known), found) ↦
        (λ h. (hash, ground arith, ground arith), λ (hash', same, good). ground arith)
  ]

  -- The seeded store lets "alice" in with her password as a user, and "admin" with his as a user and
  -- an administrator; no other name is let in with any password.
  pub authenticate-seeded :
      (salt salt' : ℕ) (store : UserStore)
      → seeded bcrypt salt salt' ≡ some store
      → (authenticate bcrypt store "alice" "hunter2" ≡ some ("user" ∷ []))
        × (authenticate bcrypt store "admin" "admin123" ≡ some ("user" ∷ "admin" ∷ []))
        × ((name password : String)
            → (authenticate bcrypt store name password ≡ none)
              ⊎ ((name ≡ "alice") ⊎ (name ≡ "admin")))
  unfolding seeded authenticate get insert remove
  authenticate-seeded salt salt' store h = elim (Result-cases (bcrypt.hash "hunter2" salt)) [
    | inr (e, failed) ↦ absurd (ground arith)
    | inl (hash, hashed) ↦ elim (Result-cases (bcrypt.hash "admin123" salt')) [
      | inr (e, failed) ↦ absurd (ground arith)
      | inl (hash', hashed') ↦
          let good = bcrypt.verify-hash "hunter2" hash salt hashed in
          let good' = bcrypt.verify-hash "admin123" hash' salt' hashed' in
          (
            ground arith,
            ground arith,
            λ name password. ground (arith, eq_iff "admin" name, eq_iff "alice" name),
          )
    ]
  ]

only : {s t : String} → Memᴰ s (t ∷ []) → s ≡ t
only (Memᴰ.head e) = e
only (Memᴰ.tail m) = elim m [ ]

module _ (j : Jsonwebtoken) (keys : JwtKeys j) where
  -- A token that the gateway signs for a user is validated with that user's claims from then until
  -- an hour and the leeway of a minute have passed, if the two keys are a pair.
  pub validate-sign :
      (username : String) (roles : List String) (issued now : ℕ) (token : String)
      → j.IsPair keys.encoding keys.decoding
      → sign j keys username roles issued ≡ ok token
      → now ≤ issued + 3660
      → validate j keys token now ≡ ok (new_claims username roles issued)
  unfolding sign validate
  validate-sign username roles issued now token pair signed in_time =
      elim (Result-cases (j.encode rs256 (new_claims username roles issued) keys.encoding)) [
        | inr (e, failed) ↦ absurd (ground arith)
        | inl (t, encoded) ↦
            let same : t ≡ token = ground arith in
            let current : IsCurrent validation now (new_claims username roles issued) = record {
              unexpired = omega arith;
              issuer = Memᴰ.head refl;
            } in
            let decoded =
              j.decode-encode validation now (new_claims username roles issued) token pair
                (encoded ∙ ap ok same) current in
            rw decoded
      ]

  -- Claims that are accepted come from this gateway's issuer and expired a minute ago at most.
  pub validate-IsCurrent :
      (token : String) (now : ℕ) (claims : Claims)
      → validate j keys token now ≡ ok claims
      → (now ≤ claims.exp + 60) × (claims.iss ≡ "securenet-gateway")
  unfolding validate
  validate-IsCurrent token now claims accepted =
      elim (Result-cases (j.decode token keys.decoding validation now)) [
        | inr (e, failed) ↦ absurd (ground arith)
        | inl (c, decoded) ↦
            let same : c ≡ claims = ground arith in
            let current =
              j.decode-IsCurrent token keys.decoding validation now claims (decoded ∙ ap ok same) in
            (current.unexpired, only current.issuer)
      ]

  pub validate_refusal :
      (token : String) (now : ℕ) (e : AppError)
      → validate j keys token now ≡ err e
      → status_code e ≡ 401
  unfolding validate status_code
  validate_refusal token now e h =
      elim (Result-cases (j.decode token keys.decoding validation now)) [
        | inr (text, failed) ↦ ground arith
        | inl (c, decoded) ↦ absurd (ground arith)
      ]
