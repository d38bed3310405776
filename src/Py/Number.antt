-- ===== src/Py/Number.antt =====
-- A number that a caller passes where the annotation says `float`: Python does not convert it.
use verdict_risk.Py.Except.{Result, overflow_error, err, ok}
use verdict_risk.Prelude.{
  ltb, Bool-cases, ℤ, ltb_ℤ, pos, negsuc, ℕ, suc, ◌*◌, ◌^◌, ◌≤◌, ◌≡◌, refl, subst, inl, inr, Bool,
  false, not, ◌||◌, arith,
}
use verdict_risk.Py.Float.{
  plus, minus, Float, nan, infinite, finite, is_nan, is_inf, lt, magnitude, round, of_ratio,
  zero_float,
}
use verdict_risk.Py.Float.Rounding.{pack}
use verdict_risk.Py.Float.Rounding.Monotone.{magnitude_exact, magnitude_mono}

pub data Number : Type 0 where
  int : ℤ → Number
  float : Float → Number

-- `_is_finite` of gates.py: `isinstance(x, float)`, and neither NaN nor infinite
unfoldable pub is_finite_number : Number → Bool
is_finite_number (int i) = false
is_finite_number (float x) = not (is_nan x || is_inf x)

-- `x < 0`
abbrev pub is_negative : Number → Bool
is_negative (int i) = ltb_ℤ i (pos 0)
is_negative (float x) = lt x zero_float

-- The double nearest to an int.
unfoldable pub of_int : ℤ → Float
of_int (pos n) = of_ratio plus n 1
of_int (negsuc n) = of_ratio minus (suc n) 1

unfoldable pub no_overflow : Float → Result Float
no_overflow nan = ok nan
no_overflow (infinite s) = err (overflow_error "int too large to convert to float")
no_overflow (finite s m) = ok (finite s m)

-- `float(x)`: an int whose nearest double is out of range raises.
unfoldable pub to_float : Number → Result Float
unfolding no_overflow
to_float (int i) = no_overflow (of_int i)
to_float (float x) = ok x

-- An int of at least 2^1024 is out of range.
pub to_float_huge :
    (n : ℕ)
    → 2 ^ 1024 ≤ n
    → to_float (int (pos n)) ≡ err (overflow_error "int too large to convert to float")
unfolding to_float of_int no_overflow of_ratio round pack
to_float_huge n h = elim (Bool-cases (ltb (magnitude (n * 2 ^ 1074) 1) (2 ^ 2098))) [
  | inl fits ↦ absurd (ground (arith, reaches))
  | inr over ↦ rw over refl
]
  where
    edge : magnitude (2 ^ 2098 * 1) 1 ≡ 2 ^ 2098
    edge = magnitude_exact (2 ^ 2098) 1 (omega arith) (1, 2098, omega arith, refl)

    below : 2 ^ 2098 * 1 ≤ n * 2 ^ 1074
    below = omega (arith, h)

    reaches : 2 ^ 2098 ≤ magnitude (n * 2 ^ 1074) 1
    reaches =
        subst (λ (m : ℕ). m ≤ magnitude (n * 2 ^ 1074) 1) edge
          (magnitude_mono (2 ^ 2098 * 1) (n * 2 ^ 1074) 1 (omega arith) below)
