-- ===== src/Py/Float/Rounding/Monotone.antt =====
-- Rounding to binary64 grows with the exact value, and keeps what is a double already.
use native.Mathlib.Nat.{
  div-lt_iff_lt-mul, le-div_iff_mul-le, mul-div_cancel, mul-le-mul_right, lt_of_mul-lt-mul_right,
}
use verdict_risk.Prelude.{
  ℕ, zero, suc, ◌+◌, ◌-◌, ◌*◌, ◌/◌, ◌^◌, ◌≤◌, ◌<◌, ◌≡◌, refl, sym, ap, ◌∙◌, inl, inr, ◌⊎◌, arith,
  subst,
}
use verdict_risk.Py.Float.Rounding.{excess, nearest, magnitude}
use verdict_risk.Py.Float.Rounding.Nearest.{
  nearest_exact, div_mono, nearest_mono, nearest_le, le_nearest,
}
use verdict_risk.Py.Float.Rounding.Exponent.{
  two_pow_suc, two_pow_pos, two_pow_le, two_pow_add, excess_fuel, excess_fits, excess_least,
  excess_le, excess_mono,
}

-- The magnitude at the exponent `k`.
abbrev pub at_exponent : ℕ → ℕ → ℕ → ℕ
at_exponent num den k = nearest num (den * 2 ^ k) * 2 ^ k

-- A number below 2^53, times a power of two.
abbrev pub IsScaled : ℕ → Type 0
IsScaled m = (q : ℕ) × (k : ℕ) × (q < 2 ^ 53) × (m ≡ q * 2 ^ k)

magnitude-at_exponent :
    (num den k : ℕ) → excess 2046 (num / den) ≡ k → magnitude num den ≡ at_exponent num den k
unfolding magnitude
magnitude-at_exponent num den k e = ap (at_exponent num den) e

scaled_pos : (den k : ℕ) → 0 < den → 0 < den * 2 ^ k
scaled_pos den k h = grind (arith, two_pow_pos k)

-- At a fixed exponent.
at_exponent_mono : (a b den k : ℕ) → 0 < den → a ≤ b → at_exponent a den k ≤ at_exponent b den k
at_exponent_mono a b den k h l =
    mul-le-mul_right (2 ^ k) (nearest_mono a b (den * 2 ^ k) (scaled_pos den k h) l)

-- What stays below 2^53 units is at most 2^53 of them.
units_above : (a den k : ℕ) → 0 < den → a / den < 2 ^ 53 * 2 ^ k → a ≤ 2 ^ 53 * (den * 2 ^ k)
units_above a den k h l = grind (arith, (div-lt_iff_lt-mul h).0 l)

units_below : (b den j : ℕ) → 0 < den → 2 ^ 53 * 2 ^ j ≤ b / den → 2 ^ 52 * (den * 2 ^ suc j) ≤ b
units_below b den j h l = rw (two_pow_suc j) (grind (arith, (le-div_iff_mul-le h).0 l))

at_exponent_upper :
    (a den k : ℕ) → 0 < den → a / den < 2 ^ 53 * 2 ^ k → at_exponent a den k ≤ 2 ^ 53 * 2 ^ k
at_exponent_upper a den k h l =
    mul-le-mul_right (2 ^ k)
      (nearest_le a (den * 2 ^ k) (2 ^ 53) (scaled_pos den k h) (units_above a den k h l))

at_exponent_lower :
    (b den j : ℕ) → 0 < den → 2 ^ 53 * 2 ^ j ≤ b / den → 2 ^ 53 * 2 ^ j ≤ at_exponent b den (suc j)
at_exponent_lower b den j h l =
    let most = mul-le-mul_right (2 ^ suc j) (
      le_nearest b (den * 2 ^ suc j) (2 ^ 52) (scaled_pos den (suc j) h)
        (units_below b den j h l)) in
    omega (arith, most, two_pow_suc j)

-- From a smaller exponent to a larger one.
exponent_step :
    (a b den k j : ℕ)
    → 0 < den
    → excess 2046 (a / den) ≡ k
    → excess 2046 (b / den) ≡ suc j
    → k ≤ j
    → at_exponent a den k ≤ at_exponent b den (suc j)
exponent_step a b den k j h e e' l =
    let fits = excess_fits 2046 (a / den) (omega (arith, excess_fuel 2046 (b / den))) in
    let least = excess_least 2046 (b / den) j e' in
    omega (
      arith,
      at_exponent_upper a den k h (subst (λ n. a / den < 2 ^ 53 * 2 ^ n) e fits),
      at_exponent_lower b den j h least,
      two_pow_le k j l,
    )

at_exponents :
    (a b den k k' : ℕ)
    → 0 < den
    → a ≤ b
    → excess 2046 (a / den) ≡ k
    → excess 2046 (b / den) ≡ k'
    → k ≤ k'
    → at_exponent a den k ≤ at_exponent b den k'
at_exponents a b den k k' h l e e' m = elim (apart k k' m) [
  | inl same ↦
      subst (λ n. at_exponent a den k ≤ at_exponent b den n) same (at_exponent_mono a b den k h l)
  | inr (j, more, le) ↦
      subst (λ n. at_exponent a den k ≤ at_exponent b den n) (sym more)
        (exponent_step a b den k j h e (e' ∙ more) le)
]
  where
    apart : (x y : ℕ) → x ≤ y → (x ≡ y) ⊎ ((j : ℕ) × (y ≡ suc j) × (x ≤ j))
    apart x zero m = inl (omega arith)
    apart x (suc y) m = elim (split x (suc y) m) [
      | inl same ↦ inl same
      | inr less ↦ inr (y, refl, omega arith)
    ]
      where
        split : (x y : ℕ) → x ≤ y → (x ≡ y) ⊎ (x < y)
        split x y m = ground arith

pub magnitude_mono : (a b den : ℕ) → 0 < den → a ≤ b → magnitude a den ≤ magnitude b den
magnitude_mono a b den h l =
    let k = excess 2046 (a / den) in
    let k' = excess 2046 (b / den) in
    let m = excess_mono 2046 (a / den) (b / den) (div_mono a b den h l) in
    rw (magnitude-at_exponent a den k refl, magnitude-at_exponent b den k' refl)
      (at_exponents a b den k k' h l refl refl m)

-- A whole number of units that is scaled is not changed.
at_exponent_exact :
    (m den e : ℕ) (x : ℕ) → 0 < den → m ≡ x * 2 ^ e → at_exponent (m * den) den e ≡ m
at_exponent_exact m den e x h s =
    let regroup : m * den ≡ x * (den * 2 ^ e) = ap (λ (t : ℕ). t * den) s ∙ grind arith in
    rw regroup (rw (nearest_exact x (den * 2 ^ e) (scaled_pos den e h)) (sym s))

pub magnitude_exact : (m den : ℕ) → 0 < den → IsScaled m → magnitude (m * den) den ≡ m
magnitude_exact m den h (q, k, small, s) =
    let e = excess 2046 m in
    let le : e ≤ k = excess_le 2046 m k (grind (arith, s, two_pow_pos k)) in
    rw (magnitude-at_exponent (m * den) den e (ap (excess 2046) (mul-div_cancel m h)))
      (at_exponent_exact m den e (q * 2 ^ (k - e)) h (factor le))
  where
    factor : excess 2046 m ≤ k → m ≡ q * 2 ^ (k - excess 2046 m) * 2 ^ excess 2046 m
    factor le =
        let powers : 2 ^ k ≡ 2 ^ (k - excess 2046 m) * 2 ^ excess 2046 m =
          subst (λ n. 2 ^ n ≡ 2 ^ (k - excess 2046 m) * 2 ^ excess 2046 m) (omega arith)
            (two_pow_add (k - excess 2046 m) (excess 2046 m)) in
        s ∙ ap (λ (t : ℕ). q * t) powers ∙ grind arith

-- What the carry of a rounding to 2^53 leaves.
IsScaled-units : (n e : ℕ) → n ≤ 2 ^ 53 → IsScaled (n * 2 ^ e)
IsScaled-units n e h = elim (carry n h) [
  | inl small ↦ (n, e, small, refl)
  | inr full ↦ (2 ^ 52, suc e, omega arith, rw full (omega (arith, two_pow_suc e)))
]
  where
    carry : (n : ℕ) → n ≤ 2 ^ 53 → (n < 2 ^ 53) ⊎ (n ≡ 2 ^ 53)
    carry n h = ground arith

past_mantissa : (e : ℕ) → e ≡ 2046 → ◌≡◌ {A = ℕ} 2098 (52 + e)
past_mantissa e h = omega arith

-- With the last exponent, a result below the bound of binary64 has at most 2^53 units.
last_exponent : (n e : ℕ) → e ≡ 2046 → n * 2 ^ e < 2 ^ 2098 → n ≤ 2 ^ 53
last_exponent n e spent l =
    let top = ap (λ k. 2 ^ k) (past_mantissa e spent) ∙ two_pow_add 52 e in
    omega (arith, lt_of_mul-lt-mul_right (2 ^ e) (subst (λ (t : ℕ). n * 2 ^ e < t) top l))

pub magnitude-IsScaled :
    (num den : ℕ) → 0 < den → magnitude num den < 2 ^ 2098 → IsScaled (magnitude num den)
magnitude-IsScaled num den h l =
    let e = excess 2046 (num / den) in
    let units = nearest num (den * 2 ^ e) in
    rw (magnitude-at_exponent num den e refl)
      (IsScaled-units units e (bounded (excess_cases 2046 (num / den))))
  where
    excess_cases : (f q : ℕ) → (excess f q < f) ⊎ (excess f q ≡ f)
    excess_cases f q = ground (arith, excess_fuel f q)

    bounded :
        (excess 2046 (num / den) < 2046) ⊎ (excess 2046 (num / den) ≡ 2046)
        → nearest num (den * 2 ^ excess 2046 (num / den)) ≤ 2 ^ 53
    bounded (inl stopped) =
        let e = excess 2046 (num / den) in
        nearest_le num (den * 2 ^ e) (2 ^ 53) (scaled_pos den e h)
          (units_above num den e h (excess_fits 2046 (num / den) stopped))
    bounded (inr spent) =
        let e = excess 2046 (num / den) in
        last_exponent (nearest num (den * 2 ^ e)) e spent
          (subst (λ m. m < 2 ^ 2098) (magnitude-at_exponent num den e refl) l)
