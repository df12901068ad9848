-- ===== src/Shared/Chaos/Laws.antt =====
-- The fast path and the clamps change nothing.
use secure_net.Base.{ℕ, ◌<◌, ◌≡◌}
use secure_net.Shared.Chaos.{Double, pos, unit}

-- A number that the random source gives: at least 0 and below 1.
abbrev pub IsRoll : Double → Type 0
IsRoll r = (n : ℕ) × (r ≡ pos n) × (n < unit)
