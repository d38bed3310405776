-- ===== src/Benchmark.antt =====
-- src/trade_risk_engine/benchmark.py: the latency report and the run that makes it. `fmean` of the
-- standard library is a parameter, and so are the clock's readings.
pub mod Samples
pub mod Ranks
pub mod Percentiles
pub mod Nearest
pub mod Main
mod Tests
use verdict_risk.Prelude.{
  if◌then◌else◌, length, ℤ, pos_part, ◌-ℤ◌, ltb_ℤ, pos, ℕ, zero, suc, ◌+◌, ◌-◌, ◌/◌, ◌^◌, String,
  Bool, true, false, none, List, [], ◌∷◌, ◌++◌,
}
use verdict_risk.Py.Except.{
  Result, raise_if, ◌>>=◌, ◌>>◌, value_error, overflow_error, index_error, err, ok,
}
use verdict_risk.Py.Float.{
  plus, minus, Float, nan, infinite, finite, le, mul, div, zero_float, one_float,
}
use verdict_risk.Py.Number.{of_int, to_float, int}
use verdict_risk.Py.Format.{join, str_nat, str_int, two_decimals}
use verdict_risk.State.{RiskContext, default_context, context_init}
use verdict_risk.Receipts.{
  Fields, Items, string, real, whole, sequence, scalar, no_fields, field, no_items, item,
}
use verdict_risk.Engine.Chain.{Trade, evaluate_stateless}

abbrev pub default_caveats : List String
default_caveats =
    "Python timing includes interpreter, allocation, and tracing overhead, so it is not directly comparable to native systems."
    ∷ "Do not compare these numbers to Rust/C benchmarks without matching hardware, workload shape, and observability settings."
    ∷ "Percentiles are reproducible for a fixed sample set, but live perf_counter measurements naturally vary run to run."
    ∷ []

pub record BenchmarkReport : Type 0 where
  pub iterations : ℤ
  pub warmup_iterations : ℤ
  pub samples_ns : List ℤ
  pub p50_ns : ℤ
  pub p95_ns : ℤ
  pub p99_ns : ℤ
  pub min_ns : ℤ
  pub max_ns : ℤ
  pub mean_ns : Float
  pub caveats : List String

unfoldable pub insert_sample : ℤ → List ℤ → List ℤ
insert_sample x [] = x ∷ []
insert_sample x (y ∷ rest) = if ltb_ℤ y x then y ∷ insert_sample x rest else x ∷ y ∷ rest

-- `sorted` of ints
unfoldable pub sort_samples : List ℤ → List ℤ
unfolding insert_sample
sort_samples [] = []
sort_samples (x ∷ rest) = insert_sample x (sort_samples rest)

-- `xs[i]` for an index that is not negative
unfoldable pub item_at : List ℤ → ℕ → Result ℤ
item_at [] i = err (index_error "tuple index out of range")
item_at (x ∷ rest) zero = ok x
item_at (x ∷ rest) (suc i) = item_at rest i

-- `xs[-1]`
unfoldable pub last_item : List ℤ → Result ℤ
last_item [] = err (index_error "tuple index out of range")
last_item (x ∷ []) = ok x
last_item (x ∷ y ∷ rest) = last_item (y ∷ rest)

-- `math.ceil`
unfoldable pub ceil : Float → Result ℤ
ceil nan = err (value_error "cannot convert float NaN to integer")
ceil (infinite s) = err (overflow_error "cannot convert float infinity to integer")
ceil (finite plus m) = ok (pos ((m + (2 ^ 1074 - 1)) / 2 ^ 1074))
ceil (finite minus m) = ok (pos 0 -ℤ pos (m / 2 ^ 1074))

-- `max(0, math.ceil((percentile / 100.0) * len(samples_ns)) - 1)`
unfoldable pub rank_of : Float → ℕ → Result ℕ
rank_of percentile count = do
  share ← div percentile (of_int (pos 100))
  size ← to_float (int (pos count))
  rank ← ceil (mul share size)
  ok (pos_part (rank -ℤ pos 1))

-- `_percentile`
unfoldable pub percentile_of : List ℤ → Float → Result ℤ
percentile_of samples_ns percentile =
    if le percentile zero_float
    then item_at samples_ns 0
    else if le (of_int (pos 100)) percentile
    then last_item samples_ns
    else rank_of percentile (length samples_ns) >>= item_at samples_ns

abbrev pub is_empty : List ℤ → Bool
is_empty [] = true
is_empty (x ∷ rest) = false

-- `BenchmarkReport.from_samples`
unfoldable pub from_samples : (List ℤ → Float) → List ℤ → ℤ → ℤ → Result BenchmarkReport
from_samples fmean samples_ns iterations warmup_iterations =
    let ordered = sort_samples samples_ns in
    do
      raise_if (is_empty ordered) (value_error "samples_ns must not be empty")
      p50 ← percentile_of ordered (of_int (pos 50))
      p95 ← percentile_of ordered (of_int (pos 95))
      p99 ← percentile_of ordered (of_int (pos 99))
      smallest ← item_at ordered 0
      largest ← last_item ordered
      ok (record {
        iterations = iterations;
        warmup_iterations = warmup_iterations;
        samples_ns = ordered;
        p50_ns = p50;
        p95_ns = p95;
        p99_ns = p99;
        min_ns = smallest;
        max_ns = largest;
        mean_ns = fmean ordered;
        caveats = default_caveats;
      })

abbrev int_items : List ℤ → Items
int_items [] = no_items
int_items (x ∷ rest) = item (scalar (whole x)) (int_items rest)

abbrev string_items : List String → Items
string_items [] = no_items
string_items (s ∷ rest) = item (scalar (string s)) (string_items rest)

-- `BenchmarkReport.to_dict`
unfoldable pub to_dict : BenchmarkReport → Fields
to_dict report = field "iterations" (scalar (whole report.iterations)) (
    field "warmup_iterations" (scalar (whole report.warmup_iterations)) (
      field "samples_ns" (sequence (int_items report.samples_ns)) (
        field "p50_ns" (scalar (whole report.p50_ns)) (
          field "p95_ns" (scalar (whole report.p95_ns)) (
            field "p99_ns" (scalar (whole report.p99_ns)) (
              field "min_ns" (scalar (whole report.min_ns)) (
                field "max_ns" (scalar (whole report.max_ns)) (
                  field "mean_ns" (scalar (real report.mean_ns))
                    (field "caveats" (sequence (string_items report.caveats)) no_fields)))))))))

-- The lines of the caveats, each but the last with a line break.
abbrev bullet_lines : List String → List String
bullet_lines [] = []
bullet_lines (s ∷ []) = "- " ∷ s ∷ []
bullet_lines (s ∷ t ∷ rest) = "- " ∷ s ∷ "\n" ∷ bullet_lines (t ∷ rest)

-- `BenchmarkReport.to_markdown`
unfoldable pub to_markdown : BenchmarkReport → String
unfolding join str_int
to_markdown report = join (
    "# Trade Risk Engine Latency Benchmark\n\n- Iterations: "
    ∷ str_int report.iterations
    ∷ "\n- Warmup iterations: "
    ∷ str_int report.warmup_iterations
    ∷ "\n- Samples: "
    ∷ str_nat (length report.samples_ns)
    ∷ "\n- p50: "
    ∷ str_int report.p50_ns
    ∷ " ns\n- p95: "
    ∷ str_int report.p95_ns
    ∷ " ns\n- p99: "
    ∷ str_int report.p99_ns
    ∷ " ns\n- Mean: "
    ∷ two_decimals report.mean_ns
    ∷ " ns\n- Min / max: "
    ∷ str_int report.min_ns
    ∷ " ns / "
    ∷ str_int report.max_ns
    ∷ " ns\n\n## Caveats\n\n"
    ∷ (bullet_lines report.caveats ++ "\n" ∷ []))

-- The trade that the run evaluates.
abbrev pub bench_trade : Trade
bench_trade = record {
  daily_realized_pnl = zero_float;
  equity = of_int (pos 10_000);
  target_family = "BENCH";
  proposed_cost = of_int (pos 100);
  open_positions = [];
  expected_value = one_float;
  trade_outcomes = none;
  current_time = none;
  cluster_cap_ctx = none;
}

-- What the clock says of a call: the time that the engine sees, and the time around the call.
pub record Timing : Type 0 where
  pub elapsed_ns : ℕ
  pub sample_ns : ℕ

-- A loop of `count` evaluations, from an index of the clock: the samples.
unfoldable pub run_loop : RiskContext → (ℕ → Timing) → ℕ → ℕ → Result (List ℤ)
run_loop ctx timing index zero = ok []
run_loop ctx timing index (suc count) = do
  _ ← evaluate_stateless ctx bench_trade (timing index).elapsed_ns
  samples ← run_loop ctx timing (index + 1) count
  ok (pos (timing index).sample_ns ∷ samples)

-- The configuration of the run, with the other fields as they are by default.
abbrev pub bench_context : RiskContext
bench_context = record default_context { latency_budget_us = pos 1_000_000 }

-- `run_latency_benchmark`: the samples of the warm-up are not kept.
unfoldable pub run_latency_benchmark :
    (List ℤ → Float) → (ℕ → Timing) → ℤ → ℤ → Result BenchmarkReport
run_latency_benchmark fmean timing iterations warmup_iterations = do
  raise_if (ltb_ℤ iterations (pos 1)) (value_error "iterations must be >= 1")
  raise_if (ltb_ℤ warmup_iterations (pos 0)) (value_error "warmup_iterations must be >= 0")
  ctx ← context_init bench_context
  _ ← run_loop ctx timing 0 (pos_part warmup_iterations)
  samples ← run_loop ctx timing (pos_part warmup_iterations) (pos_part iterations)
  from_samples fmean samples iterations warmup_iterations
