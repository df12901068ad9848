-- ===== src/Shared/Rotation/Sleep.antt =====
-- `(ttl as f64 * 0.9) as u64` of shared/src/rotation.rs, in the arithmetic of doubles.
pub mod Laws
use secure_net.Base.{ℕ, zero, suc, ◌+◌, ◌*◌, ◌/◌, ◌%◌, ◌^◌, ◌≡◌, ltb, nat_beq, if◌then◌else◌, refl}

-- The double nearest to 0.9 is this number over 2 ^ 53.
abbrev pub nine_tenths : ℕ
nine_tenths = 8106479329266893

-- A number to the nearest multiple of `unit`, a tie to the even one.
abbrev pub nearest : ℕ → ℕ → ℕ
nearest m unit =
    let q = m / unit in
    let rest = m % unit in
    if ltb (2 * rest) unit
    then q * unit
    else if ltb unit (2 * rest)
    then (q + 1) * unit
    else if nat_beq (q % 2) 0
    then q * unit
    else (q + 1) * unit

-- The spacing of the doubles at `m`: the least power of 2, `unit` or more, with `m` below 2 ^ 53 of
-- them. A 128-bit `m` needs 75 doublings.
unfoldable pub spacing : ℕ → ℕ → ℕ → ℕ
spacing zero unit m = unit
spacing (suc fuel) unit m =
    let next = spacing fuel (2 * unit) m in if ltb m (2 ^ 53 * unit) then unit else next

-- A natural number of at most 128 bits as a significand of 53 bits.
unfoldable pub rounded : ℕ → ℕ
rounded m = nearest m (spacing 75 1 m)

-- For a 64-bit number of seconds.
unfoldable pub sleep_secs : ℕ → ℕ
unfolding rounded
sleep_secs ttl = rounded (rounded ttl * nine_tenths) / 2 ^ 53

samples :
    (sleep_secs 300 ≡ 270) × (sleep_secs 30 ≡ 27) × (sleep_secs 299 ≡ 269) × (sleep_secs 1 ≡ 0)
unfolding sleep_secs spacing
samples = (refl, refl, refl, refl)
