-- ===== src/Gateway/Benchmark/Complete.antt =====
-- Proofs: a benchmark whose rounds succeed reports all its statistics.
use tasktify.External.Uuid.{Uuid}
use tasktify.Gateway.Benchmark.{Samples}
use tasktify.Gateway.Benchmark.Stats.{StatFloats}
use tasktify.Gateway.Benchmark.Extremes.{Compares, IsSummary}
use tasktify.Gateway.Benchmark.Reports.{IssuanceStats}

module _ {F : Type 0} (f : StatFloats F) where
  -- What a report on the issuing of tokens says of its samples.
  pub record IsReported (s : Samples F) (stats : IssuanceStats F) : Type 0 where
    pub sign : IsSummary f s.timings stats.sign
    pub refresh_token : IsSummary f s.refresh_timings stats.refresh_token
    pub total : IsSummary f s.total_timings stats.total

  -- The order compares the samples of each kind of token, and of both together.
  pub record AreCompared (s : Samples F) : Type 0 where
    pub sign : Compares f s.timings
    pub refresh_token : Compares f s.refresh_timings
    pub total : Compares f s.total_timings
