-- ===== src/Benchmark/Main.antt =====
-- src/trade_risk_engine/benchmark.py: the command line, by the arguments that are parsed, and what it
-- prints. `json.dumps` is a parameter.

use verdict_risk.Prelude.{if◌then◌else◌, ℤ, pos, ℕ, String, ◌≡◌, Bool, false, some, List, [], ◌∷◌}
use verdict_risk.Py.Except.{Result, ◌>>=◌, ok}
use verdict_risk.Py.Float.{Float}
use verdict_risk.Receipts.{Fields, real, whole, scalar}
use verdict_risk.State.Json.{keys, get}
use verdict_risk.Benchmark.{BenchmarkReport, to_dict, to_markdown, Timing, run_latency_benchmark}

-- `BenchmarkReport.to_json`, by the canonical `json.dumps` with an indent
unfoldable pub to_json : (Fields → String) → BenchmarkReport → String
to_json dumps report = dumps (to_dict report)

-- What `parse_args` returns; the defaults are those of the parser.
pub record BenchmarkArguments : Type 0 where
  pub iterations : ℤ
  pub warmup_iterations : ℤ
  pub json : Bool

abbrev pub default_arguments : BenchmarkArguments
default_arguments = record { iterations = pos 1000; warmup_iterations = pos 100; json = false }

-- `main`, after the parsing: what is printed, and the exit status.
unfoldable pub main :
    (Fields → String) → (List ℤ → Float) → (ℕ → Timing) → BenchmarkArguments → Result (String × ℤ)
main dumps fmean timing arguments = do
  report ← run_latency_benchmark fmean timing arguments.iterations arguments.warmup_iterations
  ok (if arguments.json then to_json dumps report else to_markdown report, pos 0)

abbrev pub report_keys : List String
report_keys =
    "iterations" ∷ "warmup_iterations" ∷ "samples_ns" ∷ "p50_ns" ∷ "p95_ns" ∷ "p99_ns" ∷ "min_ns"
    ∷ "max_ns" ∷ "mean_ns" ∷ "caveats" ∷ []

-- The dict has each number of the report under its name, and no other key.
abbrev pub Shows : Fields → BenchmarkReport → Type 0
Shows fields r =
    (keys fields ≡ report_keys)
    × (get "iterations" fields ≡ some (scalar (whole r.iterations)))
    × (get "warmup_iterations" fields ≡ some (scalar (whole r.warmup_iterations)))
    × (get "p50_ns" fields ≡ some (scalar (whole r.p50_ns)))
    × (get "p95_ns" fields ≡ some (scalar (whole r.p95_ns)))
    × (get "p99_ns" fields ≡ some (scalar (whole r.p99_ns)))
    × (get "min_ns" fields ≡ some (scalar (whole r.min_ns)))
    × (get "max_ns" fields ≡ some (scalar (whole r.max_ns)))
    × (get "mean_ns" fields ≡ some (scalar (real r.mean_ns)))
