-- ===== src/Benchmark/Percentiles.antt =====
-- The percentiles of a report are in order, and there is a report of every run.
use verdict_risk.Prelude.{
  length, ℤ, ◌≤ℤ◌, ltb_ℤ, pos, ℕ, zero, suc, ◌+◌, ◌^◌, ◌<◌, ◌≡◌, refl, ap, ◌∙◌, true, false, List,
  [], ◌∷◌, arith,
}
use verdict_risk.Py.Except.{ok}
use verdict_risk.Py.Float.{
  Float, lt-not_le, is_finite, lt, le, magnitude, round, of_ratio, zero_float,
}
use verdict_risk.Py.Number.{of_int}
use verdict_risk.State.{ensure_finite, RiskContext, context_init}
use verdict_risk.Engine.Chain.Answer.{evaluate_stateless-returns}
use verdict_risk.Benchmark.{
  default_caveats, BenchmarkReport, sort_samples, item_at, last_item, percentile_of, is_empty,
  from_samples, bench_trade, Timing, run_loop, bench_context, run_latency_benchmark,
}
use verdict_risk.Benchmark.Samples.{
  IsSorted, sort_samples-perm, sort_samples-IsSorted, length-sort_samples, item_at-returns,
  last_item-returns, item_at_mono, item_at-last_item,
}
use verdict_risk.Benchmark.Ranks.{hundred, IsPercentile, rank, rank_of_lem, rank_within, rank_mono}
use mathlib.Core.List.{Perm}

pub percentile_of-rank :
    (xs : List ℤ) (p : Float)
    → IsPercentile p
    → le hundred p ≡ false
    → length xs < 2 ^ 53
    → percentile_of xs p ≡ item_at xs (rank p (length xs))
unfolding percentile_of
percentile_of-rank xs p (above, below) inside small =
    rw (lt-not_le zero_float p above, inside, rank_of_lem p (length xs) (above, below) small) refl

abbrev pub p50 : Float
p50 = of_int (pos 50)

abbrev pub p95 : Float
p95 = of_int (pos 95)

abbrev pub p99 : Float
p99 = of_int (pos 99)

pub percentiles_inside :
    (IsPercentile p50 × (le hundred p50 ≡ false))
    × (IsPercentile p95 × (le hundred p95 ≡ false))
    × (IsPercentile p99 × (le hundred p99 ≡ false))
unfolding of_int of_ratio round magnitude lt le
percentiles_inside = (((refl, refl), refl), ((refl, refl), refl), ((refl, refl), refl))

percentiles_grow : (le p50 p95 ≡ true) × (le p95 p99 ≡ true)
unfolding of_int of_ratio round magnitude le
percentiles_grow = (refl, refl)

nonempty : (xs : List ℤ) → 0 < length xs → is_empty xs ≡ false
nonempty [] h = absurd (omega arith)
nonempty (x ∷ xs) h = refl

-- The samples in order, with their percentiles, ends and mean, for so many iterations and so long a
-- warm-up.
abbrev pub IsSummary : (List ℤ → Float) → List ℤ → ℤ → ℤ → BenchmarkReport → Type 0
IsSummary fmean samples iterations warmup_iterations r =
    (r.iterations ≡ iterations)
    × (r.warmup_iterations ≡ warmup_iterations)
    × (r.mean_ns ≡ fmean r.samples_ns)
    × (r.caveats ≡ default_caveats)
    × IsSorted r.samples_ns
    × Perm r.samples_ns samples
    × (item_at r.samples_ns 0 ≡ ok r.min_ns)
    × (percentile_of r.samples_ns p50 ≡ ok r.p50_ns)
    × (percentile_of r.samples_ns p95 ≡ ok r.p95_ns)
    × (percentile_of r.samples_ns p99 ≡ ok r.p99_ns)
    × (last_item r.samples_ns ≡ ok r.max_ns)
    × (r.min_ns ≤ℤ r.p50_ns)
    × (r.p50_ns ≤ℤ r.p95_ns)
    × (r.p95_ns ≤ℤ r.p99_ns)
    × (r.p99_ns ≤ℤ r.max_ns)

-- For at least one sample and fewer than 2^53 there is a report; its samples are those given, in
-- order, its mean is theirs, and its minimum, its percentiles 50, 95 and 99, and its maximum, which
-- are the first, those and the last of the samples, follow each other in order.
pub from_samples-IsSummary :
    (fmean : List ℤ → Float) (samples : List ℤ) (iterations warmup_iterations : ℤ)
    → 0 < length samples
    → length samples < 2 ^ 53
    → (r : BenchmarkReport) × (from_samples fmean samples iterations warmup_iterations ≡ ok r)
      × IsSummary fmean samples iterations warmup_iterations r
unfolding from_samples
from_samples-IsSummary fmean samples iterations warmup_iterations some_sample few =
    let xs = sort_samples samples in
    let n = length xs in
    let same : length xs ≡ length samples = length-sort_samples samples in
    let many : 0 < n = omega (arith, same, some_sample) in
    let small : n < 2 ^ 53 = omega (arith, same, few) in
    let ((h50, i50), (h95, i95), (h99, i99)) = percentiles_inside in
    let (grow, grow') = percentiles_grow in
    let (a, ea) = item_at-returns xs (rank p50 n) (rank_within p50 n h50 small many) in
    let (b, eb) = item_at-returns xs (rank p95 n) (rank_within p95 n h95 small many) in
    let (c, ec) = item_at-returns xs (rank p99 n) (rank_within p99 n h99 small many) in
    let (least, el) = item_at-returns xs 0 many in
    let (most, em) = last_item-returns xs many in
    let s = sort_samples-IsSorted samples in
    rw
      (
        nonempty xs many,
        percentile_of-rank xs p50 h50 i50 small ∙ ea,
        percentile_of-rank xs p95 h95 i95 small ∙ eb,
        percentile_of-rank xs p99 h99 i99 small ∙ ec,
        el,
        em,
      )
      (
        _,
        refl,
        (
          refl,
          refl,
          refl,
          refl,
          s,
          sort_samples-perm samples,
          el,
          percentile_of-rank xs p50 h50 i50 small ∙ ea,
          percentile_of-rank xs p95 h95 i95 small ∙ eb,
          percentile_of-rank xs p99 h99 i99 small ∙ ec,
          em,
          item_at_mono xs 0 (rank p50 n) least a s (omega arith) el ea,
          item_at_mono xs (rank p50 n) (rank p95 n) a b s (rank_mono p50 p95 n h50 h95 small grow)
              ea eb,
          item_at_mono xs (rank p95 n) (rank p99 n) b c s (rank_mono p95 p99 n h95 h99 small grow')
              eb ec,
          item_at-last_item xs (rank p99 n) c most s ec em,
        ),
      )

-- The samples of a loop from an index of the clock.
abbrev pub samples_of : (ℕ → Timing) → ℕ → ℕ → List ℤ
samples_of timing index zero = []
samples_of timing index (suc count) =
    pos (timing index).sample_ns ∷ samples_of timing (index + 1) count

length-samples_of :
    (timing : ℕ → Timing) (index count : ℕ) → length (samples_of timing index count) ≡ count
length-samples_of timing index zero = refl
length-samples_of timing index (suc count) = ap suc (length-samples_of timing (index + 1) count)

bench_cost_finite : is_finite bench_trade.proposed_cost ≡ true
unfolding of_int of_ratio round magnitude is_finite
bench_cost_finite = refl

run_loop_lem :
    (ctx : RiskContext) (timing : ℕ → Timing) (index count : ℕ)
    → run_loop ctx timing index count ≡ ok (samples_of timing index count)
unfolding run_loop
run_loop_lem ctx timing index zero = refl
run_loop_lem ctx timing index (suc count) =
    let (answer, e) =
      evaluate_stateless-returns ctx bench_trade (timing index).elapsed_ns bench_cost_finite refl in
    rw (e, run_loop_lem ctx timing (index + 1) count) refl

bench_context_init : context_init bench_context ≡ ok bench_context
unfolding context_init ensure_finite of_ratio round magnitude is_finite
bench_context_init = refl

-- A run with at least one iteration, fewer than 2^53, and any warm-up returns the report of the
-- samples that the clock gives after the warm-up.
pub run_latency_benchmark-returns :
    (fmean : List ℤ → Float) (timing : ℕ → Timing) (iterations warmup : ℕ)
    → 0 < iterations
    → iterations < 2 ^ 53
    → (r : BenchmarkReport) × (run_latency_benchmark fmean timing (pos iterations) (pos warmup)
        ≡ ok r)
      × IsSummary fmean (samples_of timing warmup iterations) (pos iterations) (pos warmup) r
unfolding run_latency_benchmark
run_latency_benchmark-returns fmean timing iterations warmup h small =
    let samples = samples_of timing warmup iterations in
    let count : length samples ≡ iterations = length-samples_of timing warmup iterations in
    let (r, e, summary) =
      from_samples-IsSummary fmean samples (pos iterations) (pos warmup) (omega (arith, count, h))
        (omega (arith, count, small)) in
    rw
      (
        accepted,
        not_negative,
        bench_context_init,
        run_loop_lem bench_context timing 0 warmup,
        run_loop_lem bench_context timing warmup iterations,
      )
      (r, e, summary)
  where
    accepted : ltb_ℤ (pos iterations) (pos 1) ≡ false
    accepted = ground (arith, h)

    not_negative : ltb_ℤ (pos warmup) (pos 0) ≡ false
    not_negative = ground arith
