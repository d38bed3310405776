-- ===== src/Benchmark/Ranks.antt =====
-- The rank of a percentile: within the samples, and no less for a greater percentile.

use verdict_risk.Prelude.{
  pos_part, sub_ℕ, ◌-ℤ◌, pos, ℕ, ◌+◌, ◌-◌, ◌*◌, ◌/◌, ◌^◌, ◌≤◌, ◌<◌, ◌≡◌, refl, ap, ◌∙◌, true, arith,
}
use verdict_risk.Py.Except.{ok}
use verdict_risk.Py.Float.{
  plus, minus, Float, nan, infinite, finite, is_finite, lt, le, magnitude, round, IsDouble,
  round_exact, quotient_mono, mul_mono, div_pos, quotient, mul, of_ratio, zero_float, one_float,
}
use verdict_risk.Py.Float.Plus.{
  IsPlus, quotient-le_one, mul-le, IsPlus-of_positive, finite_below, quotient-IsPlus, mul-IsPlus,
  one_finite,
}
use verdict_risk.Py.Number.{of_int, to_float}
use verdict_risk.Benchmark.{ceil, rank_of}
use verdict_risk.Py.Float.Rounding.Nearest.{div_mono}

count-IsDouble : (n : ℕ) → n < 2 ^ 53 → IsDouble (finite plus (n * 2 ^ 1074))
count-IsDouble n h = ((n, 1074, h, refl), omega (arith, h))

-- A count below 2^53 is a double.
count_exact : (n : ℕ) → n < 2 ^ 53 → of_int (pos n) ≡ finite plus (n * 2 ^ 1074)
unfolding of_int of_ratio
count_exact n h =
    ap (λ (k : ℕ). round plus k 1) (omega arith)
    ∙ round_exact plus (n * 2 ^ 1074) 1 (omega arith) (count-IsDouble n h)

-- The least whole number that is not less than a count of units.
abbrev pub up : ℕ → ℕ
up m = (m + (2 ^ 1074 - 1)) / 2 ^ 1074

pub up_mono : (m n : ℕ) → m ≤ n → up m ≤ up n
up_mono m n h =
    div_mono (m + (2 ^ 1074 - 1)) (n + (2 ^ 1074 - 1)) (2 ^ 1074) (omega arith) (omega arith)

pub up_count : (n : ℕ) → up (n * 2 ^ 1074) ≡ n
up_count n = omega arith

abbrev pub units : Float → ℕ
units nan = 0
units (infinite s) = 0
units (finite s m) = m

ceil_lem : (x : Float) → IsPlus x → is_finite x ≡ true → ceil x ≡ ok (pos (up (units x)))
unfolding ceil is_finite
ceil_lem (finite plus m) p f = refl
ceil_lem (finite minus m) p f = absurd p
ceil_lem nan p f = absurd p
ceil_lem (infinite s) p f = absurd (ground arith)

units_mono :
    (x y : Float) → IsPlus x → IsPlus y → is_finite y ≡ true → le x y ≡ true → units x ≤ units y
unfolding le is_finite
units_mono (finite plus m) (finite plus n) p q f l = ground arith
units_mono (finite plus m) (infinite t) p q f l = absurd (ground arith)
units_mono (finite plus m) nan p q f l = absurd q
units_mono (finite plus m) (finite minus n) p q f l = absurd q
units_mono (finite minus m) y p q f l = absurd p
units_mono nan y p q f l = absurd p
units_mono (infinite s) y p q f l = omega arith

abbrev pub hundred : Float
hundred = of_int (pos 100)

hundred_finite : is_finite hundred ≡ true
unfolding of_int of_ratio round magnitude is_finite
hundred_finite = refl

hundred_pos : lt zero_float hundred ≡ true
unfolding of_int of_ratio round magnitude lt
hundred_pos = refl

-- Above 0 and at most 100.
abbrev pub IsPercentile : Float → Type 0
IsPercentile p = (lt zero_float p ≡ true) × (le p hundred ≡ true)

percentile_finite : (p : Float) → IsPercentile p → is_finite p ≡ true
percentile_finite p (above, below) =
    finite_below p hundred (IsPlus-of_positive p above) hundred_finite below

-- The share of a percentile is a finite number between 0 and 1.
share_lem :
    (p : Float)
    → IsPercentile p
    → IsPlus (quotient p hundred)
      × (is_finite (quotient p hundred) ≡ true)
      × (le (quotient p hundred) one_float ≡ true)
share_lem p (above, below) =
    let sign = quotient-IsPlus p hundred (IsPlus-of_positive p above) hundred_finite hundred_pos in
    let small =
      quotient-le_one p hundred (percentile_finite p (above, below)) hundred_finite hundred_pos
        below in
    (sign, finite_below (quotient p hundred) one_float sign one_finite small, small)

abbrev pub size : ℕ → Float
size n = finite plus (n * 2 ^ 1074)

size_finite : (n : ℕ) → is_finite (size n) ≡ true
unfolding is_finite
size_finite n = refl

-- The product whose ceiling is the rank.
abbrev pub scaled : Float → ℕ → Float
scaled p n = mul (quotient p hundred) (size n)

pub scaled_lem :
    (p : Float) (n : ℕ)
    → IsPercentile p
    → n < 2 ^ 53
    → IsPlus (scaled p n) × (is_finite (scaled p n) ≡ true) × (le (scaled p n) (size n) ≡ true)
scaled_lem p n h small =
    let (sign, fin, l) = share_lem p h in
    let (positive, _) = mul-IsPlus (quotient p hundred) (size n) sign fin tt (size_finite n) in
    let below =
      mul-le (quotient p hundred) (size n) fin l tt (size_finite n) (count-IsDouble n small) in
    (positive, finite_below (scaled p n) (size n) positive (size_finite n) below, below)

abbrev pub rank : Float → ℕ → ℕ
rank p n = up (units (scaled p n)) - 1

pub rank_of_lem : (p : Float) (n : ℕ) → IsPercentile p → n < 2 ^ 53 → rank_of p n ≡ ok (rank p n)
unfolding rank_of to_float ◌-ℤ◌
rank_of_lem p n h small =
    let (sign, fin, _) = scaled_lem p n h small in
    rw (div_pos p hundred hundred_pos, count_exact n small, ceil_lem (scaled p n) sign fin)
      (ap ok (less (up (units (scaled p n)))))
  where
    less : (m : ℕ) → pos_part (sub_ℕ (m + 0) (0 + 1)) ≡ m - 1
    less m = ground arith

pub rank_within : (p : Float) (n : ℕ) → IsPercentile p → n < 2 ^ 53 → 0 < n → rank p n < n
rank_within p n h small some_sample =
    let (sign, _, l) = scaled_lem p n h small in
    let le_count =
      up_mono (units (scaled p n)) (n * 2 ^ 1074)
        (units_mono (scaled p n) (size n) sign tt (size_finite n) l) in
    omega (arith, le_count, up_count n, some_sample)

mul_mono-size :
    (x y : Float) (n : ℕ)
    → is_finite x ≡ true
    → is_finite y ≡ true
    → le x y ≡ true
    → le (mul x (size n)) (mul y (size n)) ≡ true
unfolding is_finite
mul_mono-size (finite s a) (finite t b) n f g l = mul_mono s t a b (n * 2 ^ 1074) l
mul_mono-size (finite s a) nan n f g l = absurd (ground arith)
mul_mono-size (finite s a) (infinite t) n f g l = absurd (ground arith)
mul_mono-size nan y n f g l = absurd (ground arith)
mul_mono-size (infinite s) y n f g l = absurd (ground arith)

pub rank_mono :
    (p q : Float) (n : ℕ)
    → IsPercentile p
    → IsPercentile q
    → n < 2 ^ 53
    → le p q ≡ true
    → rank p n ≤ rank q n
rank_mono p q n h k small l =
    let (sp, fp, _) = scaled_lem p n h small in
    let (sq, fq, _) = scaled_lem q n k small in
    let ups = up_mono (units (scaled p n)) (units (scaled q n)) (
      units_mono (scaled p n) (scaled q n) sp sq fq (
        mul_mono-size (quotient p hundred) (quotient q hundred) n (share_lem p h).1
          (share_lem q k).1
          (quotient_mono p q hundred (percentile_finite p h) (percentile_finite q k) hundred_finite
            hundred_pos l))) in
    omega (arith, ups)
