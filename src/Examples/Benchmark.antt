-- ===== src/Examples/Benchmark.antt =====
-- The theorem on the loops of the benchmark handler, with numbers for float64.
use tasktify.Prelude.{
  ℕ, ◌+◌, ◌≡◌, ◌≤◌, ◌==◌, if◌then◌else◌, refl, some, [], ◌∷◌, Result, ok, err, plain, true, false,
  length,
}
use tasktify.Prelude.Int.{pos}
use tasktify.Jwt.Claims.{header_alg_for_config_alg}
use tasktify.Gateway.Benchmark.{
  BenchmarkSignRequest, Timing, RuntimeStats, BenchmarkResult, run_benchmark, make_slices, rounds,
  warmup_rounds,
}
use tasktify.Gateway.Benchmark.Counts.{IsBalanced, run_benchmark-IsBalanced}

abbrev pub three_rounds : BenchmarkSignRequest
three_rounds = record {
  algorithm = "ES256";
  iterations = pos 3;
  warmup_iterations = pos 1;
  email = "alice@example.org";
  payload_note = "";
}

abbrev pub idle : RuntimeStats ℕ
idle = record {
  memory_alloc_kb = 1;
  memory_alloc_delta_kb = 2;
  memory_sys_kb = 3;
  memory_rss_kb = 4;
  cpu_time_ms = 5;
  cpu_pct = 6;
  gc_occurred = false;
}

abbrev pair_of : ℕ → ℕ → Timing ℕ
pair_of a r = record { sign = a; refresh_token = some r; total = some (a + r) }

-- The first round fails, in the second the garbage is collected.
rounds_of : BenchmarkSignRequest → ℕ → Result (Timing ℕ × RuntimeStats ℕ)
rounds_of req i =
    if i == 0
    then err (plain "sign")
    else if i == 1
    then ok (pair_of 20 25, record idle { gc_occurred = true })
    else ok (pair_of 30 35, idle)

abbrev two_of_three : BenchmarkResult ℕ
two_of_three = record {
  endpoint = "/api/benchmark/sign";
  metric_scope = "jwt_issuance";
  algorithm = "ES256";
  jws_algorithm = "ES256";
  iterations = pos 3;
  warmup_iterations = pos 1;
  success_count = 2;
  payload_note = "";
  samples = record {
    timings = 20 ∷ 30 ∷ [];
    gc_free = 30 ∷ [];
    refresh_timings = 25 ∷ 35 ∷ [];
    gc_free_refresh = 35 ∷ [];
    total_timings = 45 ∷ 65 ∷ [];
    cpu = 6 ∷ 6 ∷ [];
    cpu_time = 5 ∷ 5 ∷ [];
    alloc = 1 ∷ 1 ∷ [];
    alloc_delta = 2 ∷ 2 ∷ [];
    sys = 3 ∷ 3 ∷ [];
    rss = 4 ∷ 4 ∷ [];
    gc_contaminated = 1;
    first_err = some (plain "sign");
  };
}

ran :
    run_benchmark 1000 "/api/benchmark/sign" "jwt_issuance" "failed" rounds_of (ok three_rounds)
    ≡ ok two_of_three
unfolding run_benchmark make_slices rounds_of rounds warmup_rounds header_alg_for_config_alg
ran = refl

run_benchmark-IsBalanced_example :
    IsBalanced two_of_three.samples
    × (two_of_three.success_count ≡ length two_of_three.samples.timings)
    × (1 ≤ two_of_three.success_count)
    × (two_of_three.success_count ≤ rounds two_of_three.iterations)
run_benchmark-IsBalanced_example =
    run_benchmark-IsBalanced 1000 "/api/benchmark/sign" "jwt_issuance" "failed" rounds_of
      (ok three_rounds) two_of_three ran
