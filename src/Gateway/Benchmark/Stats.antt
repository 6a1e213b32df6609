-- ===== src/Gateway/Benchmark/Stats.antt =====
-- backend/gateway/internal/delivery/http/handler/benchmark_handler.go: the statistics of samples.
-- float64 is any type with Go's operations; sort.Float64s is written as an insertion sort.
use tasktify.Prelude.{
  ℕ, ◌+◌, ◌-◌, Bool, List, [], ◌∷◌, map, Result, ok, ◌>>=◌, value_at, length, leb, ◌==◌,
  if◌then◌else◌,
}

-- The operations of float64 that the statistics use; `trunc` is int(x) of an x that is not
-- negative.
pub record StatFloats (F : Type 0) : Type 0 where
  pub zero_f : F
  pub add : F → F → F
  pub sub : F → F → F
  pub mul : F → F → F
  pub div : F → F → F
  pub sqrt : F → F
  pub of_int : ℕ → F
  pub trunc : F → ℕ
  pub less : F → F → Bool

pub record TimingStats (F : Type 0) : Type 0 where
  pub min_ms : F
  pub max_ms : F
  pub avg_ms : F
  pub p50_ms : F
  pub p95_ms : F
  pub p99_ms : F
  pub stdev_ms : F
  pub sum_ms : F

pub record NumericStats (F : Type 0) : Type 0 where
  pub min : F
  pub max : F
  pub avg : F
  pub p50 : F
  pub p95 : F
  pub p99 : F
  pub stdev : F
  pub sum : F

module _ {F : Type 0} (f : StatFloats F) where
  open f use {zero_f, add, sub, mul, div, sqrt, of_int, trunc, less}

  unfoldable pub insert_sorted : F → List F → List F
  insert_sorted x [] = x ∷ []
  insert_sorted x (y ∷ ys) = if less y x then y ∷ insert_sorted x ys else x ∷ y ∷ ys

  unfoldable pub sort : List F → List F
  unfolding insert_sorted
  sort [] = []
  sort (x ∷ xs) = insert_sorted x (sort xs)

  unfoldable pub sum_from : F → List F → F
  sum_from acc [] = acc
  sum_from acc (v ∷ vs) = sum_from (add acc v) vs

  unfoldable pub squares_from : F → F → List F → F
  squares_from avg acc [] = acc
  squares_from avg acc (v ∷ vs) = let d = sub v avg in squares_from avg (add acc (mul d d)) vs

  -- The closure percentile, over the sorted samples.
  unfoldable pub percentile : List F → ℕ → Result F
  unfolding value_at
  percentile sorted p =
      let n = length sorted in
      let idx = mul (div (of_int p) (of_int 100)) (of_int (n - 1)) in
      let lo = trunc idx in
      let frac = sub idx (of_int lo) in
      let between = (do
        a ← value_at sorted lo
        b ← value_at sorted (lo + 1)
        ok (add (mul a (sub (of_int 1) frac)) (mul b frac))) in
      if n == 1
      then value_at sorted 0
      else if leb n (lo + 1)
      then value_at sorted (n - 1)
      else between

  unfoldable pub compute_timing_stats : List F → Result (TimingStats F)
  unfolding sort sum_from squares_from percentile value_at
  compute_timing_stats [] = ok (record {
    min_ms = zero_f;
    max_ms = zero_f;
    avg_ms = zero_f;
    p50_ms = zero_f;
    p95_ms = zero_f;
    p99_ms = zero_f;
    stdev_ms = zero_f;
    sum_ms = zero_f;
  })
  compute_timing_stats (t ∷ ts) = do
    let sorted = sort (t ∷ ts)
    let n = length sorted
    let total = sum_from zero_f sorted
    let avg = div total (of_int n)
    let variance = div (squares_from avg zero_f sorted) (of_int n)
    min ← value_at sorted 0
    max ← value_at sorted (n - 1)
    p50 ← percentile sorted 50
    p95 ← percentile sorted 95
    p99 ← percentile sorted 99
    ok (record {
      min_ms = min;
      max_ms = max;
      avg_ms = avg;
      p50_ms = p50;
      p95_ms = p95;
      p99_ms = p99;
      stdev_ms = sqrt variance;
      sum_ms = total;
    })

  unfoldable pub compute_numeric_stats : List F → Result (NumericStats F)
  unfolding compute_timing_stats
  compute_numeric_stats values = do
    t ← compute_timing_stats values
    ok (record {
      min = t.min_ms;
      max = t.max_ms;
      avg = t.avg_ms;
      p50 = t.p50_ms;
      p95 = t.p95_ms;
      p99 = t.p99_ms;
      stdev = t.stdev_ms;
      sum = t.sum_ms;
    })

  -- An empty slice for nil.
  unfoldable pub scale_values : List F → F → List F
  scale_values values factor = map (λ value. mul value factor) values
