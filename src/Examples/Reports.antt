-- ===== src/Examples/Reports.antt =====
-- The theorem on the report of a benchmark, with natural numbers for float64.
use tasktify.Prelude.{ℕ, ◌+◌, ◌≡◌, refl, String, none, some, [], ◌∷◌, ok, ltb, if◌then◌else◌}
use tasktify.Prelude.Int.{pos}
use tasktify.Jwt.Claims.{header_alg_for_config_alg}
use tasktify.External.Uuid.{Uuid}
use tasktify.Gateway.Benchmark.{
  Floats, Round, rounds, warmup_rounds, jwt_issuance, BenchmarkResult, make_slices,
}
use tasktify.Gateway.Benchmark.Reports.{sign_token}
use tasktify.Gateway.Benchmark.Pairs.{IsPaired, jwt_issuance-IsPaired}
use tasktify.Examples.Benchmark.{three_rounds, idle}
use tasktify.Examples.Jwt.{issuing, later}
use tasktify.Examples.Auth.{two_tokens}

abbrev floats : Floats ℕ
floats = record {
  add = λ x y. x + y;
  greater = λ x y. ltb y x;
  max = λ x y. if ltb x y then y else x;
}

abbrev everyone : String → Uuid
everyone email = 3

-- Round `i` takes `i` and twice `i` milliseconds.
abbrev round : ℕ → Round ℕ
round i = record {
  access_at = issuing;
  refresh_at = later;
  access_measured = (i, idle);
  refresh_measured = (i + i, idle);
}

token_signed :
    sign_token
      (λ (x : ℕ). "0.000")
      (some two_tokens)
      everyone
      issuing
      (5, idle)
      (ok (record { algorithm = "ES256"; email = "alice@example.org" }))
    ≡ ok (
      record {
        status = 200;
        message = "benchmark token generated";
        body = record { token_type = "Bearer"; access_token = "access" };
      },
      ("X-Sign-Time-Ms", "0.000") ∷ ("X-Token-Generation-Time-Ms", "0.000") ∷ [],
    )
unfolding sign_token
token_signed = refl

abbrev result : BenchmarkResult ℕ
result = record {
  endpoint = "/api/benchmark/sign";
  metric_scope = "jwt_issuance";
  algorithm = "ES256";
  jws_algorithm = "ES256";
  iterations = pos 3;
  warmup_iterations = pos 1;
  success_count = 3;
  payload_note = "";
  samples = record {
    timings = 0 ∷ 1 ∷ 2 ∷ [];
    gc_free = 0 ∷ 1 ∷ 2 ∷ [];
    refresh_timings = 0 ∷ 2 ∷ 4 ∷ [];
    gc_free_refresh = 0 ∷ 2 ∷ 4 ∷ [];
    total_timings = 0 ∷ 3 ∷ 6 ∷ [];
    cpu = 6 ∷ 6 ∷ 6 ∷ [];
    cpu_time = 10 ∷ 10 ∷ 10 ∷ [];
    alloc = 1 ∷ 1 ∷ 1 ∷ [];
    alloc_delta = 4 ∷ 4 ∷ 4 ∷ [];
    sys = 3 ∷ 3 ∷ 3 ∷ [];
    rss = 4 ∷ 4 ∷ 4 ∷ [];
    gc_contaminated = 0;
    first_err = none;
  };
}

answered :
    jwt_issuance floats
      (some two_tokens)
      everyone
      1000
      "/api/benchmark/sign"
      round
      (ok three_rounds)
    ≡ ok result
unfolding jwt_issuance make_slices rounds warmup_rounds header_alg_for_config_alg
answered = refl

jwt_issuance-IsPaired_example : IsPaired result.samples
jwt_issuance-IsPaired_example =
    jwt_issuance-IsPaired floats (some two_tokens) everyone 1000 "/api/benchmark/sign" round
      (ok three_rounds) result answered
