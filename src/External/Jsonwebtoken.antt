-- ===== src/External/Jsonwebtoken.antt =====
-- The `jsonwebtoken` crate, and `bcrypt` and `rsa`, which feed it.
use secure_net.Base.{ℕ, ◌+◌, ◌≤◌, String, Bool, true, List, ◌≡◌}
use mathlib.Core.List.{Memᴰ}
use secure_net.Base.Result.{Result, ok}
use secure_net.External.Hex.{Bytes}
use secure_net.Shared.Models.{Claims}

pub data Algorithm : Type 0 where
  hs256 rs256 : Algorithm

-- The fields of `Validation` that matter here. Its `new` sets a leeway of 60 s and checks `exp`.
pub record Validation : Type 0 where
  pub algorithm : Algorithm
  pub leeway : ℕ
  pub issuers : List String

-- A token that is within its lifetime, by the clock in seconds, and from a listed issuer.
pub record IsCurrent (v : Validation) (now : ℕ) (c : Claims) : Type 0 where
  pub unexpired : now ≤ c.exp + v.leeway
  pub issuer : Memᴰ c.iss v.issuers

pub record Jsonwebtoken : Type 1 where
  pub EncodingKey : Type 0
  pub DecodingKey : Type 0
  pub encoding_from_rsa_pem : Bytes → Result EncodingKey String
  pub decoding_from_rsa_pem : Bytes → Result DecodingKey String
  pub encode : Algorithm → Claims → EncodingKey → Result String String
  -- The number is the clock.
  pub decode : String → DecodingKey → Validation → ℕ → Result Claims String
  -- The two halves of one key pair.
  pub IsPair : EncodingKey → DecodingKey → Type 0
  pub decode-encode :
      {e : EncodingKey} {k : DecodingKey} (v : Validation) (now : ℕ) (c : Claims) (token : String)
      → IsPair e k
      → encode v.algorithm c e ≡ ok token
      → IsCurrent v now c
      → decode token k v now ≡ ok c
  pub decode-IsCurrent :
      (token : String) (k : DecodingKey) (v : Validation) (now : ℕ) (c : Claims)
      → decode token k v now ≡ ok c
      → IsCurrent v now c

pub record Bcrypt : Type 0 where
  -- The number is the salt's entropy.
  pub hash : String → ℕ → Result String String
  pub verify : String → String → Result Bool String
  pub verify-hash :
      (password h : String) (salt : ℕ) → hash password salt ≡ ok h → verify password h ≡ ok true

-- An RSA key pair made from entropy, as PEM texts.
pub record Rsa : Type 1 where
  pub PrivateKey : Type 0
  pub generate : ℕ → Result PrivateKey String
  pub private_pem : PrivateKey → Result Bytes String
  pub public_pem : PrivateKey → Result Bytes String
