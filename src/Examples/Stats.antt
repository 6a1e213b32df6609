-- ===== src/Examples/Stats.antt =====
-- The statistics of samples, with natural numbers for float64.
use tasktify.Prelude.{
  ℕ, ◌+◌, ◌-◌, ◌*◌, ◌≡◌, refl, List, [], ◌∷◌, if◌then◌else◌, ltb, arith, Returns,
}
use tasktify.Gateway.Benchmark.Stats.{StatFloats, compute_timing_stats, scale_values}
use tasktify.Gateway.Benchmark.Extremes.{Compares, IsSummary, compute_timing_stats-IsSummary}

-- Whole numbers; the division is by hundreds only, and the root is not taken.
abbrev pub whole : StatFloats ℕ
whole = record {
  zero_f = 0;
  add = λ x y. x + y;
  sub = λ x y. x - y;
  mul = λ x y. x * y;
  div = λ x y. if ltb x 100 then 0 else 1;
  sqrt = λ x. x;
  of_int = λ n. n;
  trunc = λ x. x;
  less = ltb;
}

pub whole-Compares : (samples : List ℕ) → Compares whole samples
whole-Compares samples = record {
  refl_le = λ x _. ground arith;
  trans_le = λ x y z _ _ _ xy yz. ground arith;
  asym = λ x y _ _ xy. ground arith;
}

scaled : scale_values whole (3 ∷ 1 ∷ []) 10 ≡ 30 ∷ 10 ∷ []
unfolding scale_values
scaled = refl

compute_timing_stats-IsSummary_example :
    Returns (IsSummary whole (5 ∷ 2 ∷ 9 ∷ 2 ∷ [])) (compute_timing_stats whole (5 ∷ 2 ∷ 9 ∷ 2 ∷ []))
compute_timing_stats-IsSummary_example =
    compute_timing_stats-IsSummary whole 5 (2 ∷ 9 ∷ 2 ∷ []) (whole-Compares (5 ∷ 2 ∷ 9 ∷ 2 ∷ []))
