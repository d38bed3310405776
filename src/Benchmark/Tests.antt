-- ===== src/Benchmark/Tests.antt =====
-- Reports at concrete samples.
use verdict_risk.Receipts.{Fields}
use verdict_risk.Prelude.{ℤ, ◌-ℤ◌, pos, ℕ, ◌+◌, ◌-◌, String, ◌≡◌, refl, List, [], ◌∷◌, arith}
use verdict_risk.Py.Except.{ok}
use verdict_risk.Py.Float.{Float, le, magnitude, round, mul, div, of_ratio}
use verdict_risk.Py.Number.{of_int, no_overflow, to_float}
use verdict_risk.Benchmark.{item_at, last_item, ceil, rank_of, percentile_of, Timing}
use verdict_risk.Benchmark.Nearest.{nearest_rank, percentile_of-nearest_rank}
use verdict_risk.Tests.Data.{dollars}

-- The first sample stands for the mean.
abbrev fmean : List ℤ → Float
fmean [] = dollars 20
fmean (x ∷ xs) = of_int x

-- The median of three samples is the one in the middle.
median : percentile_of (pos 10 ∷ pos 20 ∷ pos 30 ∷ []) (of_int (pos 50)) ≡ ok (pos 20)
unfolding percentile_of rank_of item_at last_item ceil to_float of_int no_overflow of_ratio round
    magnitude div mul le ◌-ℤ◌
median = refl

abbrev timing : ℕ → Timing
timing index = record { elapsed_ns = 300_000; sample_ns = 310_000 + index }

abbrev no_dumps : Fields → String
no_dumps _ = "{}"

percentile_of-nearest_rank_example :
    (percentile_of (pos 10 ∷ pos 20 ∷ pos 30 ∷ []) (of_int (pos 50))
      ≡ item_at (pos 10 ∷ pos 20 ∷ pos 30 ∷ []) (nearest_rank 50 3 - 1))
    × (percentile_of (pos 10 ∷ pos 20 ∷ pos 30 ∷ []) (of_int (pos 95))
        ≡ item_at (pos 10 ∷ pos 20 ∷ pos 30 ∷ []) (nearest_rank 95 3 - 1))
    × (percentile_of (pos 10 ∷ pos 20 ∷ pos 30 ∷ []) (of_int (pos 99))
        ≡ item_at (pos 10 ∷ pos 20 ∷ pos 30 ∷ []) (nearest_rank 99 3 - 1))
percentile_of-nearest_rank_example =
    percentile_of-nearest_rank (pos 10 ∷ pos 20 ∷ pos 30 ∷ []) (omega arith)
