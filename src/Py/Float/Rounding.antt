-- ===== src/Py/Float/Rounding.antt =====
-- Rounding of an exact ratio to binary64.
pub mod Nearest
pub mod Exponent
pub mod Monotone
use verdict_risk.Prelude.{
  ltb, ◌==◌, if◌then◌else◌, ℕ, zero, suc, ◌+◌, ◌*◌, ◌/◌, ◌%◌, ◌^◌, true, false, ◌&&◌, ◌||◌,
}
use verdict_risk.Py.Float.Order.{Sign, Float, infinite, finite}

-- The number of halvings, at most `fuel`, that bring `q` below 2^53: the exponent that is needed.
unfoldable pub excess : ℕ → ℕ → ℕ
excess zero q = 0
excess (suc fuel) q = elim (ltb q (2 ^ 53)) [ true ↦ 0 | false ↦ suc (excess fuel (q / 2)) ]

-- `num / den` to the nearest integer, ties to even.
unfoldable pub nearest : ℕ → ℕ → ℕ
nearest num den =
    let q = num / den in
    let r = 2 * (num % den) in if ltb den r || ((r == den) && ((q % 2) == 1)) then q + 1 else q

-- The magnitude of the double nearest to `num / den` units. The exponent stops at 2046: what it
-- gives there is past the largest double, and overflows.
unfoldable pub magnitude : ℕ → ℕ → ℕ
unfolding excess nearest
magnitude num den = let k = excess 2046 (num / den) in nearest num (den * 2 ^ k) * 2 ^ k

-- A magnitude past the largest double is an infinity.
unfoldable pub pack : Sign → ℕ → Float
pack s m = if ltb m (2 ^ 2098) then finite s m else infinite s

unfoldable pub round : Sign → ℕ → ℕ → Float
unfolding pack
round s num den = pack s (magnitude num den)
