-- ===== src/Base/Hex16.antt =====
-- `format!("{n:016x}")`: lower-case hexadecimal, padded with zeros to sixteen digits.
use Prim.Native.Nat.{ℕ, zero, suc, ◌-◌, ◌/◌, ◌%◌, ◌^◌, ◌<◌}
use Prim.Native.Char.{Char, code}
use Prim.Native.String.{String, [], ◌∷◌}
use mathlib.Core.Path.{◌≡◌, refl, ap}
use mathlib.Core.Bool.{Bool, true, false}
use native.Mathlib.Nat.{pow-suc}
use native.Mathlib.Omega.{arith}
use text.Mathlib.TextLemmas.{head-eq_of_cons-eq, tail-eq_of_cons-eq}
use secure_net.Base.Tests.{leb, nat_beq, nat_beq_iff, if◌then◌else◌}

-- The digit of a number below 16.
unfoldable pub hex_char : ℕ → Char
hex_char n =
    if nat_beq n 0
    then "0"
    else if nat_beq n 1
    then "1"
    else if nat_beq n 2
    then "2"
    else if nat_beq n 3
    then "3"
    else if nat_beq n 4
    then "4"
    else if nat_beq n 5
    then "5"
    else if nat_beq n 6
    then "6"
    else if nat_beq n 7
    then "7"
    else if nat_beq n 8
    then "8"
    else if nat_beq n 9
    then "9"
    else if nat_beq n 10
    then "a"
    else if nat_beq n 11
    then "b"
    else if nat_beq n 12
    then "c"
    else if nat_beq n 13
    then "d"
    else if nat_beq n 14
    then "e"
    else "f"

-- The number of a digit's code point.
unfoldable pub hex_value : ℕ → ℕ
hex_value c = if leb c 57 then c - 48 else c - 87

-- Every digit below `n` is read back.
digits_agree : ℕ → Bool
digits_agree zero = true
digits_agree (suc n) = if nat_beq (hex_value (code (hex_char n))) n then digits_agree n else false

digits_agree-lt : (n d : ℕ) → digits_agree n ≡ true → d < n → hex_value (code (hex_char d)) ≡ d
unfolding digits_agree
digits_agree-lt zero d h lt = absurd (omega arith)
digits_agree-lt (suc n) d h lt =
    ground (arith, digits_agree-lt n d, nat_beq_iff (hex_value (code (hex_char n))) n)

sixteen_digits : digits_agree 16 ≡ true
unfolding digits_agree hex_char hex_value
sixteen_digits = refl

pub hex_value-hex_char : (d : ℕ) → d < 16 → hex_value (code (hex_char d)) ≡ d
hex_value-hex_char d h = digits_agree-lt 16 d sixteen_digits h

hex_char_inj : (a b : ℕ) → a < 16 → b < 16 → hex_char a ≡ hex_char b → a ≡ b
hex_char_inj a b ha hb e =
    omega (arith, hex_value-hex_char a ha, hex_value-hex_char b hb, ap (λ c. hex_value (code c)) e)

-- The `k` lowest digits of `n`, before what follows.
hex_digits : ℕ → ℕ → String → String
hex_digits zero n rest = rest
hex_digits (suc k) n rest = hex_digits k (n / 16) (hex_char (n % 16) ∷ rest)

hex_digits_inj :
    (k a b : ℕ) (s t : String)
    → a < 16 ^ k
    → b < 16 ^ k
    → hex_digits k a s ≡ hex_digits k b t
    → (a ≡ b) × (s ≡ t)
unfolding hex_digits
hex_digits_inj zero a b s t ha hb e = (omega arith, e)
hex_digits_inj (suc k) a b s t ha hb e =
    let (quotients, tails) =
      hex_digits_inj k (a / 16) (b / 16) _ _ (omega (arith, pow-suc 16 k))
        (omega (arith, pow-suc 16 k)) e in
    let digits =
      hex_char_inj (a % 16) (b % 16) (omega arith) (omega arith) (head-eq_of_cons-eq tails) in
    (omega arith, tail-eq_of_cons-eq tails)

unfoldable pub format_016x : ℕ → String
unfolding hex_digits hex_char
format_016x n = hex_digits 16 n []

-- Two `u64` with one print are equal.
pub format_016x_inj : (a b : ℕ) → a < 2 ^ 64 → b < 2 ^ 64 → format_016x a ≡ format_016x b → a ≡ b
unfolding format_016x
format_016x_inj a b ha hb e = (hex_digits_inj 16 a b [] [] ha hb e).0
