-- ===== src/Shared/Chaos.antt =====
-- shared/src/chaos.rs: the middleware that drops and delays requests.
pub mod Laws
pub mod Tower
use secure_net.Base.{
  ℕ, ◌+◌, ◌^◌, String, Bool, true, false, Option, none, some, ltb, nat_beq, ◌&&◌, if◌then◌else◌,
}
use secure_net.Base.Result.{Result, ok}

-- A double as a multiple of 2 ^ -1074, with its sign, or no number. The infinities are multiples
-- beyond the finite ones.
pub data Double : Type 0 where
  nan : Double
  neg pos : ℕ → Double

unfoldable pub unit : ℕ
unit = 2 ^ 1074

abbrev pub zero_double : Double
zero_double = pos 0

unfoldable pub lt : Double → Double → Bool
lt (pos a) (pos b) = ltb a b
lt (pos a) (neg b) = false
lt (neg a) (pos b) = ltb 0 (a + b)
lt (neg a) (neg b) = ltb b a
lt nan _ = false
lt _ nan = false

-- `==`, where the two zeros are equal and nan is not equal to itself.
unfoldable pub is_zero : Double → Bool
is_zero nan = false
is_zero (neg a) = nat_beq a 0
is_zero (pos a) = nat_beq a 0

-- `f64::clamp`, which leaves nan.
abbrev pub clamp : Double → Double → Double → Double
clamp x min max = let above = if lt x min then min else x in if lt max above then max else above

pub record ChaosConfig : Type 0 where
  pub delay_p : Double
  pub drop_p : Double
  pub delay_min_ms : ℕ
  pub delay_max_ms : ℕ

-- `.ok().and_then(|v| v.parse().ok()).unwrap_or(0.0)`; `parse` is the standard library's.
unfoldable pub probability : (String → Option Double) → Option String → Double
probability parse none = zero_double
probability parse (some v) = elim (parse v) [ none ↦ zero_double | some p ↦ p ]

-- The variables CHAOS_DELAY_P and CHAOS_DROP_P.
unfoldable pub from_env : (String → Option Double) → Option String → Option String → ChaosConfig
from_env parse delay drop = record {
  delay_p = clamp (probability parse delay) zero_double (pos unit);
  drop_p = clamp (probability parse drop) zero_double (pos unit);
  delay_min_ms = 100;
  delay_max_ms = 500;
}

unfoldable pub is_noop : ChaosConfig → Bool
is_noop c = is_zero c.delay_p && is_zero c.drop_p

-- What the random source gives for one request.
pub record Draws : Type 0 where
  pub drop_roll : Double
  pub delay_roll : Double
  pub delay_ms : ℕ

-- The service behind the middleware changes the world `W`, and so does a pause in milliseconds.
module _ {W R E : Type 0} (inner : W → Result R E × W) (sleep : ℕ → W → W) (dropped : R) where
  unfoldable pub faulty : Bool → Bool → ℕ → W → Result R E × W
  faulty should_drop should_delay delay_ms w =
      if should_drop
      then (ok dropped, w)
      else if should_delay
      then inner (sleep delay_ms w)
      else inner w
