-- ===== src/Gateway/Benchmark/Reports.antt =====
-- backend/gateway/internal/delivery/http/handler/benchmark_handler.go: the field Stats of the
-- results of PureSigning and jwtIssuance, SignToken, and what is made of the readings around a
-- signature. The readings themselves, from the runtime and from /proc, are given.
use tasktify.Prelude.{
  ℕ, ◌+◌, ◌-◌, ◌%◌, ◌^◌, String, Option, List, [], ◌∷◌, Bool, Result, ok, ◌>>=◌, or_error,
  fiber_error, if◌then◌else◌, ◌&&◌, ltb,
}
use tasktify.Prelude.Int.{ℤ, pos, ltb_ℤ, leb_ℤ}
use tasktify.External.Uuid.{Uuid}
use tasktify.Jwt.Claims.{Moment, token_use_access}
use tasktify.Jwt.Util.{JwtUtil}
use tasktify.Jwt.Multi.{Configs}
use tasktify.Gateway.Http.{Response, bind}
use tasktify.Gateway.Accounts.{Headers}
use tasktify.Gateway.Benchmark.{
  Floats, RuntimeStats, BenchmarkSignRequest, Samples, BenchmarkResult, Round, pure_signing,
  jwt_issuance, sign_benchmark_token,
}
use tasktify.Gateway.Benchmark.Stats.{
  StatFloats, TimingStats, NumericStats, compute_timing_stats, compute_numeric_stats, scale_values,
}

pub record ResourceStats (F : Type 0) : Type 0 where
  pub cpu_utilization : NumericStats F
  pub cpu_time_ms : NumericStats F
  pub cpu_time_per_token_ms : NumericStats F
  pub memory_alloc_kb : NumericStats F
  pub memory_alloc_delta_kb : NumericStats F
  pub memory_sys_kb : NumericStats F
  pub memory_rss_kb : NumericStats F

pub record PureSigningStats (F : Type 0) : Type 0 where
  pub pure_signing : TimingStats F
  pub pure_signing_gc_free : TimingStats F
  pub resource : ResourceStats F

pub record IssuanceStats (F : Type 0) : Type 0 where
  pub sign : TimingStats F
  pub token_generation : TimingStats F
  pub token_generation_gc_free : TimingStats F
  pub refresh_token : TimingStats F
  pub refresh_token_gc_free : TimingStats F
  pub total : TimingStats F
  pub resource : ResourceStats F

module _ {F : Type 0} (f : StatFloats F) where
  -- `per_token` is the share of the time of a round for one of its tokens.
  unfoldable pub resource_stats : (List F → List F) → Samples F → Result (ResourceStats F)
  unfolding compute_numeric_stats
  resource_stats per_token s = do
    cpu ← compute_numeric_stats f s.cpu
    cpu_time ← compute_numeric_stats f s.cpu_time
    per_token_time ← compute_numeric_stats f (per_token s.cpu_time)
    alloc ← compute_numeric_stats f s.alloc
    alloc_delta ← compute_numeric_stats f s.alloc_delta
    sys ← compute_numeric_stats f s.sys
    rss ← compute_numeric_stats f s.rss
    ok (record {
      cpu_utilization = cpu;
      cpu_time_ms = cpu_time;
      cpu_time_per_token_ms = per_token_time;
      memory_alloc_kb = alloc;
      memory_alloc_delta_kb = alloc_delta;
      memory_sys_kb = sys;
      memory_rss_kb = rss;
    })

  unfoldable pub pure_signing_stats : Samples F → Result (PureSigningStats F)
  unfolding compute_timing_stats resource_stats
  pure_signing_stats s = do
    timings ← compute_timing_stats f s.timings
    gc_free ← compute_timing_stats f s.gc_free
    resource ← resource_stats (λ values. values) s
    ok (record { pure_signing = timings; pure_signing_gc_free = gc_free; resource = resource })

  -- `half` is 0.5.
  unfoldable pub issuance_stats : F → Samples F → Result (IssuanceStats F)
  unfolding compute_timing_stats resource_stats scale_values
  issuance_stats half s = do
    sign ← compute_timing_stats f s.timings
    sign_gc_free ← compute_timing_stats f s.gc_free
    refresh ← compute_timing_stats f s.refresh_timings
    refresh_gc_free ← compute_timing_stats f s.gc_free_refresh
    total ← compute_timing_stats f s.total_timings
    resource ← resource_stats (λ values. scale_values f values half) s
    ok (record {
      sign = sign;
      token_generation = sign;
      token_generation_gc_free = sign_gc_free;
      refresh_token = refresh;
      refresh_token_gc_free = refresh_gc_free;
      total = total;
      resource = resource;
    })

  -- PureSigning and jwtIssuance, with the statistics.
  unfoldable pub pure_signing_report :
      {Key : Type 0}
      → ℕ
      → Configs Key
      → (ℕ → F × RuntimeStats F)
      → Result BenchmarkSignRequest
      → Result (BenchmarkResult F × PureSigningStats F)
  unfolding pure_signing pure_signing_stats
  pure_signing_report capacity configs measured body = do
    result ← pure_signing capacity configs measured body
    stats ← pure_signing_stats result.samples
    ok (result, stats)

  unfoldable pub issuance_report :
      Floats F
      → F
      → Option JwtUtil
      → (String → Uuid)
      → ℕ
      → String
      → (ℕ → Round F)
      → Result BenchmarkSignRequest
      → Result (BenchmarkResult F × IssuanceStats F)
  unfolding jwt_issuance issuance_stats
  issuance_report floats half util user_of capacity endpoint round body = do
    result ← jwt_issuance floats util user_of capacity endpoint round body
    stats ← issuance_stats half result.samples
    ok (result, stats)

pub record BenchmarkTokenRequest : Type 0 where
  pub algorithm : String
  pub email : String

pub record BearerToken : Type 0 where
  pub token_type : String
  pub access_token : String

-- SignToken, with the headers that it sets; `shown` is `%.3f`.
unfoldable pub sign_token :
    {F : Type 0}
    → (F → String)
    → Option JwtUtil
    → (String → Uuid)
    → Moment
    → F × RuntimeStats F
    → Result BenchmarkTokenRequest
    → Result (Response BearerToken × Headers)
unfolding bind sign_benchmark_token
sign_token shown util user_of at measured body = do
  req ← bind body
  (token, (sign_ms, _)) ←
      or_error (fiber_error 500 "failed to generate benchmark token")
        (sign_benchmark_token util user_of at req.algorithm req.email token_use_access measured)
  ok (
    record {
      status = 200;
      message = "benchmark token generated";
      body = record { token_type = "Bearer"; access_token = token };
    },
    ("X-Sign-Time-Ms", shown sign_ms) ∷ ("X-Token-Generation-Time-Ms", shown sign_ms) ∷ [],
  )

-- runtime.MemStats, the fields that are read; all are uint64 or uint32.
pub record MemStats : Type 0 where
  pub heap_alloc : ℕ
  pub total_alloc : ℕ
  pub sys : ℕ
  pub num_gc : ℕ

-- The operations of float64 on readings.
pub record ReadingFloats (F : Type 0) : Type 0 where
  pub zero_f : F
  pub mul : F → F → F
  pub div : F → F → F
  pub of_int : ℤ → F
  pub equal : F → F → Bool

module _ {F : Type 0} (f : ReadingFloats F) where
  unfoldable pub bytes_to_kb : ℕ → F
  bytes_to_kb v = f.div (f.of_int (pos v)) (f.of_int (pos 1024))

  -- The share of the CPU of `cpu_delta` ticks in `wall_ns` nanoseconds.
  unfoldable pub cpu_share : ℤ → ℤ → ℕ → F
  cpu_share cpu_delta wall_ns max_procs =
      f.div (f.div (f.mul (f.of_int cpu_delta) (f.of_int (pos 1_000_000_000))) (f.of_int wall_ns))
        (f.of_int (pos max_procs))

  -- benchmarkRuntimeStats: `monitor` is the share that the background monitor has seen, `rss` what
  -- readMemoryRSSKB reads.
  unfoldable pub benchmark_runtime_stats :
      MemStats → MemStats → ℤ → ℤ → Bool → F → ℕ → F → RuntimeStats F
  unfolding bytes_to_kb cpu_share
  benchmark_runtime_stats before after wall_ns cpu_delta use_per_op_cpu monitor max_procs rss =
      let share : F = cpu_share cpu_delta wall_ns max_procs in
      let per_op : F =
        if ltb_ℤ (pos 0) wall_ns && leb_ℤ (pos 0) cpu_delta then share else f.zero_f in
      let monitored : F =
        if f.equal monitor f.zero_f && (ltb_ℤ (pos 0) wall_ns && ltb_ℤ (pos 0) cpu_delta)
        then share
        else monitor in
      record {
        memory_alloc_kb = bytes_to_kb after.heap_alloc;
        memory_alloc_delta_kb =
            bytes_to_kb ((after.total_alloc + 2 ^ 64 - before.total_alloc) % 2 ^ 64);
        memory_sys_kb = bytes_to_kb after.sys;
        memory_rss_kb = rss;
        cpu_time_ms = f.mul (f.of_int cpu_delta) (f.of_int (pos 10));
        cpu_pct = if use_per_op_cpu then per_op else monitored;
        gc_occurred = ltb before.num_gc after.num_gc;
      }
