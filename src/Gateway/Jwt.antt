-- ===== src/Gateway/Jwt.antt =====
-- api-gateway/src/jwt.rs: keys, tokens and the user store.
pub mod Laws
use secure_net.Base.{
  ℕ, ◌+◌, String, Bool, true, false, Option, none, some, List, [], ◌∷◌, text_eq, if◌then◌else◌,
}
use secure_net.Base.Result.{Result, ok, err, map_err, to_option, ◌>>=◌}
use secure_net.Base.HashMap.{HashMap, get, insert}
use secure_net.External.Hex.{Bytes}
use secure_net.External.Jsonwebtoken.{Jsonwebtoken, Validation, rs256, Bcrypt, Rsa}
use secure_net.Shared.Errors.{AppError, internal, auth_invalid_token}
use secure_net.Shared.Models.{Claims}

abbrev pub token_expiry_secs : ℕ
token_expiry_secs = 3600

abbrev pub issuer_name : String
issuer_name = "securenet-gateway"

-- `Validation::new(RS256)` with `set_issuer`.
abbrev pub validation : Validation
validation = record { algorithm = rs256; leeway = 60; issuers = issuer_name ∷ [] }

abbrev pub new_claims : String → List String → ℕ → Claims
new_claims username roles now = record {
  sub = username;
  iat = now;
  exp = now + token_expiry_secs;
  iss = issuer_name;
  roles = roles;
}

module _ (j : Jsonwebtoken) where
  pub record JwtKeys : Type 0 where
    pub encoding : j.EncodingKey
    pub decoding : j.DecodingKey

  from_pems : Bytes → Bytes → Result JwtKeys String
  from_pems priv_pem pub_pem = do
    encoding ← j.encoding_from_rsa_pem priv_pem
    decoding ← j.decoding_from_rsa_pem pub_pem
    ok (record { encoding = encoding; decoding = decoding })

  unfoldable pub generate_ephemeral : Rsa → ℕ → Result JwtKeys String
  unfolding from_pems
  generate_ephemeral rsa entropy = do
    private_key ← rsa.generate entropy
    priv_pem ← rsa.private_pem private_key
    pub_pem ← rsa.public_pem private_key
    from_pems priv_pem pub_pem

  -- The two variables of the environment, and the file system.
  unfoldable pub load_or_generate :
      Option String
      → Option String
      → (String → Result Bytes String)
      → Rsa
      → ℕ
      → Result JwtKeys String
  unfolding generate_ephemeral
  load_or_generate (some priv_p) (some pub_p) read rsa entropy = do
    priv_pem ← read priv_p
    pub_pem ← read pub_p
    from_pems priv_pem pub_pem
  load_or_generate _ _ read rsa entropy = generate_ephemeral rsa entropy

  -- The clock is in seconds.
  unfoldable pub sign : JwtKeys → String → List String → ℕ → Result String AppError
  sign keys username roles now =
      map_err internal (j.encode rs256 (new_claims username roles now) keys.encoding)

  unfoldable pub validate : JwtKeys → String → ℕ → Result Claims AppError
  validate keys token now = map_err auth_invalid_token (j.decode token keys.decoding validation now)

-- Usernames with bcrypt hash and roles.
abbrev pub UserStore : Type 0
UserStore = HashMap String (String × List String)

module _ (bcrypt : Bcrypt) where
  -- `none` is the panic of an `unwrap`.
  unfoldable pub seeded : ℕ → ℕ → Option UserStore
  seeded salt salt' = elim (bcrypt.hash "hunter2" salt) [
    | err _ ↦ none
    | ok hash ↦ elim (bcrypt.hash "admin123" salt') [
      | err _ ↦ none
      | ok hash' ↦
          some
            (insert "admin" (hash', "user" ∷ "admin" ∷ []) (insert "alice" (hash, "user" ∷ []) []))
    ]
  ]

  abbrev unwrap_or : Bool → Result Bool String → Bool
  unwrap_or b (ok c) = c
  unwrap_or b (err _) = b

  check_password : String → Option (String × List String) → Option (List String)
  check_password password none = none
  check_password password (some (hash, roles)) =
      if unwrap_or false (bcrypt.verify password hash) then some roles else none

  unfoldable pub authenticate : UserStore → String → String → Option (List String)
  unfolding check_password
  authenticate store username password = check_password password (get username store)
