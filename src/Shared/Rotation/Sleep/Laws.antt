-- ===== src/Shared/Rotation/Sleep/Laws.antt =====
-- The arithmetic of doubles stays within a second of nine tenths.
use secure_net.Base.{ℕ, zero, suc, ◌+◌, ◌*◌, ◌≤◌, ◌<◌, ◌≡◌, ◌⊎◌, inl, inr, refl, arith}
use native.Mathlib.Nat.{div-add-mod', mod-lt}
use secure_net.Shared.Rotation.Sleep.{nine_tenths, nearest, spacing, rounded, sleep_secs}

nearest_bounds :
    (m unit : ℕ)
    → 0 < unit
    → (2 * nearest m unit ≤ 2 * m + unit) × (2 * m ≤ 2 * nearest m unit + unit)
nearest_bounds m unit pos =
    let parts = div-add-mod' m unit in
    let small = mod-lt m pos in (ground (arith, parts, small), ground (arith, parts, small))

-- The spacing is the least one or at most m / 2 ^ 52.
spacing_lem :
    (fuel unit m : ℕ)
    → 0 < unit
    → (0 < spacing fuel unit m)
      × ((spacing fuel unit m ≡ unit) ⊎ (4503599627370496 * spacing fuel unit m ≤ m))
unfolding spacing
spacing_lem zero unit m pos = (pos, inl refl)
spacing_lem (suc fuel) unit m pos =
    let (positive, size) = spacing_lem fuel (2 * unit) m (omega arith) in
    (ground arith, ground arith)

-- The relative error is at most 2 ^ -53.
rounded_bounds :
    (m : ℕ)
    → (9007199254740992 * rounded m ≤ 9007199254740993 * m)
      × (9007199254740991 * m ≤ 9007199254740992 * rounded m)
unfolding rounded
rounded_bounds m =
    let (positive, size) = spacing_lem 75 1 m (omega arith) in
    let (above, below) = nearest_bounds m (spacing 75 1 m) positive in
    elim size [
      | inl exact ↦ (omega (arith, exact, above, below), omega (arith, exact, above, below))
      | inr small ↦ (omega (arith, small, above, below), omega (arith, small, above, below))
    ]

-- For a lifetime below 2 ^ 49 s the task sleeps nine tenths of it, rounded down to seconds, or up to
-- one second less: never beyond nine tenths.
pub sleep_secs_bounds :
    (ttl : ℕ)
    → ttl < 562949953421312
    → (10 * sleep_secs ttl ≤ 9 * ttl) × (9 * ttl ≤ 10 * sleep_secs ttl + 10)
unfolding sleep_secs
sleep_secs_bounds ttl small =
    let (above, below) = rounded_bounds ttl in
    let exact : rounded ttl ≡ ttl = omega (arith, above, below, small) in
    let (above', below') = rounded_bounds (rounded ttl * nine_tenths) in
    (omega (arith, exact, above', below', small), omega (arith, exact, above', below', small))
