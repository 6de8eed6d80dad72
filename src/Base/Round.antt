-- ===== src/Base/Round.antt =====
-- Rounding. `Big.toFixed` (utils/bigjs.ts `toFixed`) rounds half away from zero, `Math.round` half
-- up: on numbers that are not negative both are `round_div`, the quotient rounded half up.
use native.Mathlib.Nat.{le_of_mul-le-mul_left}
use impact_wallet_server.Base.Int.{ℤ, pos, negsuc, neg_ℤ}
use impact_wallet_server.Base.{ℕ, suc, ◌-◌, ◌+◌, ◌*◌, ◌/◌, ◌≤◌, ◌<◌, ◌≡◌, arith}

-- n / d, rounded to the nearest number, a half upwards
unfoldable pub round_div : ℕ → ℕ → ℕ
round_div n d = (2 * n + d) / (2 * d)

-- The rounded quotient is within half a unit of the quotient.
pub round_div_bounds :
    (n d : ℕ)
    → 0 < d
    → (2 * (d * round_div n d) ≤ 2 * n + d) × (2 * n < 2 * (d * round_div n d) + d)
unfolding round_div
round_div_bounds n d h = (grind arith, grind arith)

-- A part of at most d parts is at most the whole.
pub round_div-le : (n m d : ℕ) → 0 < d → n ≤ m * d → round_div n d ≤ m
unfolding round_div
round_div-le n m d h k = grind arith

-- An exact multiple is not rounded.
pub round_div-mul : (m d : ℕ) → 0 < d → round_div (m * d) d ≡ m
unfolding round_div
round_div-mul m d h = grind arith

pub round_div_mono : (n m d : ℕ) → 0 < d → n ≤ m → round_div n d ≤ round_div m d
unfolding round_div
round_div_mono n m d h k = grind arith

-- `Math.round(n * k / d)` of an integer n: halves go up, so those of a negative number towards zero.
unfoldable pub mul_round : ℤ → ℕ → ℕ → ℤ
unfolding round_div
mul_round (pos n) k d = pos (round_div (n * k) d)
mul_round (negsuc n) k d = neg_ℤ (pos ((2 * (suc n * k) + d - 1) / (2 * d)))

-- `n` roundings: a sum of parts `s` of `p / d` is off by at most a half for each part.
abbrev pub IsNear : ℕ → ℕ → ℕ → ℕ → Type 0
IsNear d p n s = (2 * (d * s) ≤ 2 * p + n * d) × (2 * p ≤ 2 * (d * s) + n * d)

pub IsNear-zero : (d : ℕ) → IsNear d 0 0 0
IsNear-zero d = (omega arith, omega arith)

pub IsNear-add :
    (d p n s q m t : ℕ) → IsNear d p n s → IsNear d q m t → IsNear d (p + q) (n + m) (s + t)
IsNear-add d p n s q m t h k = (grind arith, grind arith)

pub IsNear-round_div : (d p : ℕ) → 0 < d → IsNear d p 1 (round_div p d)
IsNear-round_div d p h = let (a, b) = round_div_bounds p d h in (omega arith, omega arith)

scaled_le : (d a b : ℕ) → a * d ≤ b * d → d * a ≤ d * b
scaled_le d a b h = grind arith

pub IsNear-whole :
    (d e n s : ℕ) → 0 < d → IsNear d (d * e) n s → (2 * s ≤ 2 * e + n) × (2 * e ≤ 2 * s + n)
IsNear-whole d e n s h (lo, hi) = (
  le_of_mul-le-mul_left {k = d} (scaled_le d (2 * s) (2 * e + n) (grind arith)) h,
  le_of_mul-le-mul_left {k = d} (scaled_le d (2 * e) (2 * s + n) (grind arith)) h,
)
