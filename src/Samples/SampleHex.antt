-- ===== src/Samples/SampleHex.antt =====
-- Two digits for a byte.
use Prim.Native.Char.{code}
use secure_net.Base.{
  ◌+◌, ◌*◌, ◌/◌, ◌%◌, String, ◌≡◌, refl, [], ◌∷◌, arith, hex_char, hex_value, hex_value-hex_char,
}
use secure_net.Base.Result.{Result, ok, err, ◌>>=◌}
use secure_net.External.Hex.{Hex, Bytes, IsBytes, Digest}

unfoldable pub encode : Bytes → String
unfolding hex_char
encode [] = ""
encode (b ∷ bs) = String.◌∷◌ (hex_char (b / 16)) (String.◌∷◌ (hex_char (b % 16)) (encode bs))

unfoldable pub decode : String → Result Bytes String
unfolding hex_value
decode String.[] = ok []
decode (String.◌∷◌ c String.[]) = err "Odd number of digits"
decode (String.◌∷◌ c (String.◌∷◌ e s)) = do
  rest ← decode s
  ok ((hex_value (code c) * 16 + hex_value (code e)) ∷ rest)

pub decode-encode : (bs : Bytes) → IsBytes bs → decode (encode bs) ≡ ok bs
unfolding encode decode
decode-encode [] _ = refl
decode-encode (b ∷ bs) (h, hs) = rw (decode-encode bs hs) (
    ground
      (arith, hex_value-hex_char (b / 16) (omega arith), hex_value-hex_char (b % 16) (omega arith)))

pub decode_empty : decode "" ≡ ok []
unfolding decode
decode_empty = refl

abbrev pub sample_hex : Hex
sample_hex = record {
  encode = encode;
  decode = decode;
  decode-encode = decode-encode;
  decode_empty = decode_empty;
}

-- Not SHA-256, but a function of the right type.
abbrev pub sample_digest : Digest
sample_digest bytes = 7 ∷ bytes
