-- ===== src/Py/Float/Rounding/Exponent.antt =====
-- `excess`: the exponent is the least that leaves fewer than 2^53 units, and grows with the quotient.
use native.Mathlib.Nat.{two-pow-succ, one-le-pow, pow-le-pow_right}
use verdict_risk.Prelude.{ℕ, zero, suc, ◌+◌, ◌*◌, ◌/◌, ◌^◌, ◌≤◌, ◌<◌, ◌≡◌, inl, inr, ◌⊎◌, arith}
use verdict_risk.Py.Float.Rounding.{excess}

-- Doubling, as the proofs read it.
pub two_pow_suc : (k : ℕ) → 2 ^ suc k ≡ 2 * 2 ^ k
two_pow_suc k = omega (arith, two-pow-succ k)

pub two_pow_pos : (k : ℕ) → 0 < 2 ^ k
two_pow_pos k = omega (arith, one-le-pow k 2 (omega arith))

pub two_pow_le : (j k : ℕ) → j ≤ k → 2 ^ j ≤ 2 ^ k
two_pow_le j k h = pow-le-pow_right (omega arith) h

pub two_pow_add : (j k : ℕ) → 2 ^ (j + k) ≡ 2 ^ j * 2 ^ k
two_pow_add zero k = ground (arith)
two_pow_add (suc j) k = grind (arith, two_pow_suc (j + k), two_pow_suc j, two_pow_add j k)

excess_zero : (fuel q : ℕ) → q < 2 ^ 53 → excess (suc fuel) q ≡ 0
unfolding excess
excess_zero fuel q h = ground arith

excess-suc : (fuel q : ℕ) → 2 ^ 53 ≤ q → excess (suc fuel) q ≡ suc (excess fuel (q / 2))
unfolding excess
excess-suc fuel q h = ground arith

lt_or_le : (a b : ℕ) → (a < b) ⊎ (b ≤ a)
lt_or_le a b = ground arith

pub excess_fuel : (fuel q : ℕ) → excess fuel q ≤ fuel
unfolding excess
excess_fuel zero q = omega arith
excess_fuel (suc fuel) q = ground (arith, excess_fuel fuel (q / 2))

-- Where the search stops by its test, the exponent is large enough.
pub excess_fits : (fuel q : ℕ) → excess fuel q < fuel → q < 2 ^ 53 * 2 ^ excess fuel q
excess_fits zero q h = absurd (omega arith)
excess_fits (suc fuel) q h = elim (lt_or_le q (2 ^ 53)) [
  | inl small ↦ rw (excess_zero fuel q small) (omega arith)
  | inr large ↦
      let stop = excess-suc fuel q large in
      rw stop
        (omega (arith, two_pow_suc (excess fuel (q / 2)), excess_fits fuel (q / 2) (omega arith)))
]

-- One less is too little.
pub excess_least : (fuel q e : ℕ) → excess fuel q ≡ suc e → 2 ^ 53 * 2 ^ e ≤ q
unfolding excess
excess_least zero q e h = absurd (omega arith)
excess_least (suc fuel) q zero h = elim (lt_or_le q (2 ^ 53)) [
  | inl small ↦ absurd (omega (arith, excess_zero fuel q small))
  | inr large ↦ omega arith
]
excess_least (suc fuel) q (suc e) h = elim (lt_or_le q (2 ^ 53)) [
  | inl small ↦ absurd (omega (arith, excess_zero fuel q small))
  | inr large ↦
      omega
        (arith, two_pow_suc e, excess_least fuel (q / 2) e (omega (arith, excess-suc fuel q large)))
]

-- No exponent that is large enough is smaller.
pub excess_le : (fuel q k : ℕ) → q < 2 ^ 53 * 2 ^ k → excess fuel q ≤ k
unfolding excess
excess_le zero q k h = omega arith
excess_le (suc fuel) q zero h = omega (arith, excess_zero fuel q (omega arith))
excess_le (suc fuel) q (suc k) h = elim (lt_or_le q (2 ^ 53)) [
  | inl small ↦ omega (arith, excess_zero fuel q small)
  | inr large ↦
      omega
        (arith, excess-suc fuel q large, excess_le fuel (q / 2) k (omega (arith, two_pow_suc k)))
]

pub excess_mono : (fuel p q : ℕ) → p ≤ q → excess fuel p ≤ excess fuel q
unfolding excess
excess_mono zero p q h = omega arith
excess_mono (suc fuel) p q h = ground (arith, excess_mono fuel (p / 2) (q / 2))
