-- ===== src/Benchmark/Nearest.antt =====
-- The rank is computed in doubles, with a share such as 0.95 that no double is; it is the rank of the
-- definition all the same.
use verdict_risk.Benchmark.Percentiles.{percentile_of-rank, p50, p95, p99, percentiles_inside}
use verdict_risk.Benchmark.{item_at, percentile_of}
use verdict_risk.Py.Number.{of_int}
use verdict_risk.Prelude.{
  ltb, ltb→lt, Bool-cases, length, ℤ, pos, ℕ, ◌+◌, ◌-◌, ◌*◌, ◌/◌, ◌^◌, ◌≤◌, ◌<◌, ◌≡◌, refl, ap, ◌∙◌,
  subst, inl, inr, true, List, arith,
}
use verdict_risk.Py.Float.{
  plus, Float, finite, is_finite, magnitude, round, quotient, mul, div, of_ratio,
}
use verdict_risk.Benchmark.Ranks.{
  up, up_mono, up_count, units, hundred, IsPercentile, size, scaled, scaled_lem, rank,
}
use verdict_risk.Py.Float.Rounding.{pack}
use verdict_risk.Py.Float.Rounding.Monotone.{magnitude_mono, magnitude_exact}

-- The place of a percentile among `count` samples in order, from 1: the least whole number that is at
-- least `percent` hundredths of the count.
abbrev pub nearest_rank : ℕ → ℕ → ℕ
nearest_rank percent count = (percent * count + 99) / 100

-- A count of units that is at most `b` hundredths is rounded to no more than the whole number above.
rounded_below :
    (a b n : ℕ)
    → 100 * a ≤ b * 2 ^ 1074
    → b ≤ 100 * n
    → n < 2 ^ 40
    → up (magnitude (a * 2 ^ 1074) (2 ^ 1074)) ≤ (b + 99) / 100
rounded_below a b n h small few =
    let k = (b + 99) / 100 in
    let whole : magnitude (k * 2 ^ 1074 * 2 ^ 1074) (2 ^ 1074) ≡ k * 2 ^ 1074 =
      magnitude_exact (k * 2 ^ 1074) (2 ^ 1074) (omega arith)
        (k, 1074, omega (arith, small, few), refl) in
    let l =
      magnitude_mono (a * 2 ^ 1074) (k * 2 ^ 1074 * 2 ^ 1074) (2 ^ 1074) (omega arith)
        (omega (arith, h)) in
    let ups =
      up_mono (magnitude (a * 2 ^ 1074) (2 ^ 1074)) (k * 2 ^ 1074)
        (subst (λ (m : ℕ). magnitude (a * 2 ^ 1074) (2 ^ 1074) ≤ m) whole l) in
    omega (arith, ups, up_count k)

-- A count of units that is hardly below `b` hundredths is rounded to more than the whole number below.
rounded_above :
    (a b n k : ℕ)
    → b * 2 ^ 1074 ≤ 100 * a + n * 2 ^ 1030
    → n < 2 ^ 40
    → 100 * k < b
    → k < 2 ^ 40
    → k < up (magnitude (a * 2 ^ 1074) (2 ^ 1074))
rounded_above a b n k h few below small =
    let d = (128 * k + 1) * 2 ^ 1067 in
    let between : magnitude (d * 2 ^ 1074) (2 ^ 1074) ≡ d =
      magnitude_exact d (2 ^ 1074) (omega arith) (128 * k + 1, 1067, omega (arith, small), refl) in
    let l =
      magnitude_mono (d * 2 ^ 1074) (a * 2 ^ 1074) (2 ^ 1074) (omega arith)
        (omega (arith, h, few, below)) in
    let ups =
      up_mono d (magnitude (a * 2 ^ 1074) (2 ^ 1074))
        (subst (λ (m : ℕ). m ≤ magnitude (a * 2 ^ 1074) (2 ^ 1074)) between l) in
    omega (arith, ups)

up_exact :
    (a b n : ℕ)
    → 100 * a ≤ b * 2 ^ 1074
    → b * 2 ^ 1074 ≤ 100 * a + n * 2 ^ 1030
    → b ≤ 100 * n
    → n < 2 ^ 40
    → up (magnitude (a * 2 ^ 1074) (2 ^ 1074)) ≡ (b + 99) / 100
up_exact a b n h k small few =
    let most = rounded_below a b n h small few in
    elim (Bool-cases (ltb 0 b)) [
      | inl some_hundredths ↦
          let least =
            rounded_above a b n ((b + 99) / 100 - 1) k few
              (omega (arith, ltb→lt 0 b some_hundredths)) (omega (arith, small, few)) in
          omega (arith, most, least, ltb→lt 0 b some_hundredths)
      | inr none_left ↦ ground (arith, most)
    ]

units-round :
    (num den : ℕ)
    → is_finite (round plus num den) ≡ true
    → units (round plus num den) ≡ magnitude num den
unfolding round pack is_finite
units-round num den h = ground arith

-- The rank of a percentile `c` whose share is `m` units.
rank_nearest :
    (p : Float) (m c n : ℕ)
    → quotient p hundred ≡ finite plus m
    → IsPercentile p
    → n < 2 ^ 40
    → 100 * (m * n) ≤ c * n * 2 ^ 1074
    → c * n * 2 ^ 1074 ≤ 100 * (m * n) + n * 2 ^ 1030
    → c * n ≤ 100 * n
    → rank p n ≡ nearest_rank c n - 1
unfolding mul
rank_nearest p m c n share h few below above small =
    let (_, fin, _) = scaled_lem p n h (omega (arith, few)) in
    let product : scaled p n ≡ round plus (m * n * 2 ^ 1074) (2 ^ 1074) =
      ap (λ (q : Float). mul q (size n)) share
      ∙ ap (λ (k : ℕ). round plus k (2 ^ 1074)) (grind arith) in
    let counted =
      units-round (m * n * 2 ^ 1074) (2 ^ 1074)
        (subst (λ (x : Float). is_finite x ≡ true) product fin) in
    ap (λ (k : ℕ). up k - 1) (ap units product ∙ counted)
    ∙ ap (λ (k : ℕ). k - 1) (up_exact (m * n) (c * n) n below above small few)

-- 0.5, and the doubles nearest to 0.95 and 0.99
shares :
    (quotient p50 hundred ≡ finite plus (2 ^ 1073))
    × (quotient p95 hundred ≡ finite plus (8556839292003942 * 2 ^ 1021))
    × (quotient p99 hundred ≡ finite plus (8917127262193582 * 2 ^ 1021))
unfolding quotient div of_int of_ratio round magnitude
shares = (refl, refl, refl)

-- For fewer than 2^40 samples the percentiles 50, 95 and 99, whose rank is computed in doubles,
-- are those of the nearest-rank definition in whole numbers.
pub percentile_of-nearest_rank :
    (xs : List ℤ)
    → length xs < 2 ^ 40
    → (percentile_of xs (of_int (pos 50)) ≡ item_at xs (nearest_rank 50 (length xs) - 1))
      × (percentile_of xs (of_int (pos 95)) ≡ item_at xs (nearest_rank 95 (length xs) - 1))
      × (percentile_of xs (of_int (pos 99)) ≡ item_at xs (nearest_rank 99 (length xs) - 1))
percentile_of-nearest_rank xs few =
    let n = length xs in
    let ((h50, i50), (h95, i95), (h99, i99)) = percentiles_inside in
    let (s50, s95, s99) = shares in
    let small : n < 2 ^ 53 = omega (arith, few) in
    (
      percentile_of-rank xs p50 h50 i50 small
          ∙ ap (item_at xs) (
              rank_nearest p50 (2 ^ 1073) 50 n s50 h50 few (omega arith) (omega arith)
                (omega arith)),
      percentile_of-rank xs p95 h95 i95 small
          ∙ ap (item_at xs) (
              rank_nearest p95 (8556839292003942 * 2 ^ 1021) 95 n s95 h95 few (omega arith)
                (omega arith) (omega arith)),
      percentile_of-rank xs p99 h99 i99 small
          ∙ ap (item_at xs) (
              rank_nearest p99 (8917127262193582 * 2 ^ 1021) 99 n s99 h99 few (omega arith)
                (omega arith) (omega arith)),
    )
