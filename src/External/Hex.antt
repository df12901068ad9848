-- ===== src/External/Hex.antt =====
-- The `hex` crate and `sha2::Sha256::digest`.
use secure_net.Base.{ℕ, ◌<◌, String, List, [], All, ◌≡◌}
use secure_net.Base.Result.{Result, ok}

abbrev pub Bytes : Type 0
Bytes = List ℕ

abbrev pub IsBytes : Bytes → Type 0
IsBytes = All (λ b. b < 256)

pub record Hex : Type 0 where
  pub encode : Bytes → String
  -- The error is the text of `FromHexError`.
  pub decode : String → Result Bytes String
  pub decode-encode : (b : Bytes) → IsBytes b → decode (encode b) ≡ ok b
  pub decode_empty : decode "" ≡ ok []

abbrev pub Digest : Type 0
Digest = Bytes → Bytes
