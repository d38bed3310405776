-- ===== src/Py/Float/Rounding/Nearest.antt =====
-- `nearest`: the integer next to a ratio grows with the ratio, and is the ratio where that is whole.
use native.Mathlib.Nat.{
  mod-add-div', le_trans, div-mul-le_self, le-div_iff_mul-le, mul-div_cancel, mul-mod_left,
}
use verdict_risk.Prelude.{ℕ, ◌+◌, ◌*◌, ◌/◌, ◌%◌, ◌≤◌, ◌<◌, ◌≡◌, ap, inl, inr, ◌⊎◌, arith}
use verdict_risk.Py.Float.Rounding.{nearest}

pub nearest_exact : (n den : ℕ) → 0 < den → nearest (n * den) den ≡ n
unfolding nearest
nearest_exact n den h = ground (arith, mul-div_cancel n h, mul-mod_left n den)

-- The quotient, or the next number.
near_quotient : (num den : ℕ) → (num / den ≤ nearest num den) × (nearest num den ≤ num / den + 1)
unfolding nearest
near_quotient num den = ground arith

pub div_mono : (a b den : ℕ) → 0 < den → a ≤ b → a / den ≤ b / den
div_mono a b den h l = (le-div_iff_mul-le h).1 (le_trans (div-mul-le_self a den) l)

same_quotient :
    (a b den : ℕ) → a / den ≡ b / den → a % den ≤ b % den → nearest a den ≤ nearest b den
unfolding nearest
same_quotient a b den q r = ground arith

pub nearest_mono : (a b den : ℕ) → 0 < den → a ≤ b → nearest a den ≤ nearest b den
nearest_mono a b den h l = elim (lt_or_eq (a / den) (b / den) (div_mono a b den h l)) [
  | inl less ↦ omega (arith, near_quotient a den, near_quotient b den)
  | inr same ↦
      same_quotient a b den same
        (omega (arith, mod-add-div' a den, mod-add-div' b den, ap (λ (q : ℕ). q * den) same))
]
  where
    lt_or_eq : (x y : ℕ) → x ≤ y → (x < y) ⊎ (x ≡ y)
    lt_or_eq x y h = ground arith

-- A ratio at most a whole number, or at least one, stays so.
pub nearest_le : (num den n : ℕ) → 0 < den → num ≤ n * den → nearest num den ≤ n
nearest_le num den n h l = omega (arith, nearest_mono num (n * den) den h l, nearest_exact n den h)

pub le_nearest : (num den n : ℕ) → 0 < den → n * den ≤ num → n ≤ nearest num den
le_nearest num den n h l = omega (arith, nearest_mono (n * den) num den h l, nearest_exact n den h)
