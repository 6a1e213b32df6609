-- ===== src/Gateway/Benchmark.antt =====
-- backend/gateway/internal/delivery/http/handler/benchmark_handler.go: the signing loops of
-- PureSigning and jwtIssuance. float64 is any type with Go's operations; what the runtime measures
-- around one signature is a parameter. Left out are logging, the forced garbage collection, the
-- warm-up rounds, of which nothing is kept, and the headers with percentiles. The fields Stats of
-- the results are in Gateway/Benchmark/Reports.antt. `capacity` is the most float64s that the address space and the memory have room for in each of the slices
-- that are made for the rounds; a copy of a slice that is there is taken to have room.
pub mod Stats
pub mod Extremes
pub mod Counts
pub mod Pairs
pub mod Totality
pub mod Reports
pub mod Complete
use tasktify.Prelude.{
  ℕ, zero, suc, ◌+◌, String, Option, none, some, Bool, true, false, List, [], ◌∷◌, ◌++◌, Result, ok,
  err, panic, plain, fiber_error, GoError, ◌>>=◌, or_error, if◌then◌else◌, ◌||◌, length, lookup,
  not,
}
use tasktify.Prelude.Int.{ℤ, pos, negsuc, leb_ℤ, ltb_ℤ}
use tasktify.External.Jwt.{SigningMethod, Bytes}
use tasktify.Jwt.Claims.{
  JwtPayload, Moment, token_use_access, token_use_refresh, header_alg_for_config_alg,
}
use tasktify.Jwt.Multi.{AlgConfig, Configs}
use tasktify.Jwt.Util.{JwtUtil}
use tasktify.External.Uuid.{Uuid}
use tasktify.Gateway.Http.{Response, bind}

-- The operations on float64 that the loops use.
pub record Floats (F : Type 0) : Type 0 where
  pub add : F → F → F
  pub greater : F → F → Bool
  pub max : F → F → F

pub record RuntimeStats (F : Type 0) : Type 0 where
  pub memory_alloc_kb : F
  pub memory_alloc_delta_kb : F
  pub memory_sys_kb : F
  pub memory_rss_kb : F
  pub cpu_time_ms : F
  pub cpu_pct : F
  pub gc_occurred : Bool

pub record BenchmarkSignRequest : Type 0 where
  pub algorithm : String
  pub iterations : ℤ
  pub warmup_iterations : ℤ
  pub email : String
  pub payload_note : String

abbrev pub pure_signing_input : String
pure_signing_input = "tasktify-fndsa-pure-signing-benchmark-message-v1"

-- The number of rounds of `for i := 0; i < n; i++`.
unfoldable pub rounds : ℤ → ℕ
rounds (pos n) = n
rounds (negsuc n) = 0

unfoldable pub warmup_rounds : ℤ → ℤ
warmup_rounds n = if ltb_ℤ n (pos 0) then pos 0 else n

module _ {F Key : Type 0} where
  -- signPure, with what it measures.
  unfoldable pub sign_pure : Configs Key → String → F × RuntimeStats F → Result (F × RuntimeStats F)
  unfolding lookup
  sign_pure [] algorithm measured = err (plain "benchmark signer configs not configured")
  sign_pure (entry ∷ configs) algorithm measured = elim (lookup algorithm (entry ∷ configs)) [
    | none ↦ err (plain "benchmark algorithm not configured")
    | some none ↦ err (plain "benchmark algorithm not configured")
    | some (some cfg) ↦ elim cfg.method [
      | none ↦ err (plain "benchmark algorithm not configured")
      | some m ↦ m.sign pure_signing_input cfg.sign_key >>= λ _. ok measured
    ]
  ]

module _ {F : Type 0} where
  -- signBenchmarkToken, with what it measures; `user_of` is uuid.NewSHA1 of the address in lower
  -- case.
  unfoldable pub sign_benchmark_token :
      Option JwtUtil
      → (String → Uuid)
      → Moment
      → String
      → String
      → String
      → F × RuntimeStats F
      → Result (String × (F × RuntimeStats F))
  sign_benchmark_token none user_of at algorithm email token_use measured =
      err (plain "benchmark signer not configured")
  sign_benchmark_token (some util) user_of at algorithm email token_use measured =
      util.sign at (record {
        user_id = user_of email;
        email = email;
        algorithm = algorithm;
        token_use = token_use;
      })
      >>= λ token. ok (token, measured)

  module _ (f : Floats F) where
    unfoldable pub combine_stats : RuntimeStats F → RuntimeStats F → RuntimeStats F
    combine_stats access refresh = record {
      memory_alloc_kb = refresh.memory_alloc_kb;
      memory_alloc_delta_kb = f.add access.memory_alloc_delta_kb refresh.memory_alloc_delta_kb;
      memory_sys_kb = refresh.memory_sys_kb;
      memory_rss_kb = f.max access.memory_rss_kb refresh.memory_rss_kb;
      cpu_time_ms = f.add access.cpu_time_ms refresh.cpu_time_ms;
      cpu_pct =
          if f.greater refresh.cpu_pct access.cpu_pct then refresh.cpu_pct else access.cpu_pct;
      gc_occurred = access.gc_occurred || refresh.gc_occurred;
    }

-- What a round measures: signMs, and in jwtIssuance refreshMs and totalMs.
pub record Timing (F : Type 0) : Type 0 where
  pub sign : F
  pub refresh_token : Option F
  pub total : Option F

-- The slices that a loop fills; those for refresh tokens and totals are jwtIssuance's, and stay
-- empty in PureSigning.
pub record Samples (F : Type 0) : Type 0 where
  pub timings : List F
  pub gc_free : List F
  pub refresh_timings : List F
  pub gc_free_refresh : List F
  pub total_timings : List F
  pub cpu : List F
  pub cpu_time : List F
  pub alloc : List F
  pub alloc_delta : List F
  pub sys : List F
  pub rss : List F
  pub gc_contaminated : ℕ
  pub first_err : Option GoError

unfoldable pub first_or : GoError → Option GoError → Option GoError
first_or e none = some e
first_or e (some first) = some first

-- `append`, if there is a value.
unfoldable pub append {ℓ} : {A : Type ℓ} → Option A → List A → List A
append none xs = xs
append (some x) xs = xs ++ x ∷ []

module _ {F : Type 0} where
  abbrev pub no_samples : Samples F
  no_samples = record {
    timings = [];
    gc_free = [];
    refresh_timings = [];
    gc_free_refresh = [];
    total_timings = [];
    cpu = [];
    cpu_time = [];
    alloc = [];
    alloc_delta = [];
    sys = [];
    rss = [];
    gc_contaminated = 0;
    first_err = none;
  }

  unfoldable pub keep_sample : Timing F → RuntimeStats F → Samples F → Samples F
  unfolding append
  keep_sample t stats s = record {
    timings = s.timings ++ t.sign ∷ [];
    gc_free = if stats.gc_occurred then s.gc_free else s.gc_free ++ t.sign ∷ [];
    refresh_timings = append t.refresh_token s.refresh_timings;
    gc_free_refresh =
        if stats.gc_occurred then s.gc_free_refresh else append t.refresh_token s.gc_free_refresh;
    total_timings = append t.total s.total_timings;
    cpu = s.cpu ++ stats.cpu_pct ∷ [];
    cpu_time = s.cpu_time ++ stats.cpu_time_ms ∷ [];
    alloc = s.alloc ++ stats.memory_alloc_kb ∷ [];
    alloc_delta = s.alloc_delta ++ stats.memory_alloc_delta_kb ∷ [];
    sys = s.sys ++ stats.memory_sys_kb ∷ [];
    rss = s.rss ++ stats.memory_rss_kb ∷ [];
    gc_contaminated = if stats.gc_occurred then suc s.gc_contaminated else s.gc_contaminated;
    first_err = s.first_err;
  }

  -- `if firstErr == nil { firstErr = err }; continue`
  unfoldable pub keep_error : GoError → Samples F → Samples F
  unfolding first_or
  keep_error e s = record s { first_err = first_or e s.first_err }

  -- One round, after its signatures.
  unfoldable pub keep : Result (Timing F × RuntimeStats F) → Samples F → Result (Samples F)
  unfolding keep_sample keep_error
  keep (ok (t, stats)) s = ok (keep_sample t stats s)
  keep (err e) s = ok (keep_error e s)
  keep panic s = panic

  -- The measured loop: `round i` is what the signatures of round `i` come to.
  unfoldable pub measure :
      (ℕ → Result (Timing F × RuntimeStats F)) → ℕ → ℕ → Samples F → Result (Samples F)
  unfolding keep
  measure round i zero s = ok s
  measure round i (suc n) s = keep (round i) s >>= measure round (suc i) n

  -- The end of both handlers: 500 without a sample, and otherwise the samples.
  unfoldable pub finish : String → Samples F → Result (Samples F)
  finish failure s = elim s.timings [ [] ↦ err (fiber_error 500 failure) | _ ∷ _ ↦ ok s ]

-- The fields of BenchmarkPureSigningResult and BenchmarkSignResult that the loops decide.
pub record BenchmarkResult (F : Type 0) : Type 0 where
  pub endpoint : String
  pub metric_scope : String
  pub algorithm : String
  pub jws_algorithm : String
  pub iterations : ℤ
  pub warmup_iterations : ℤ
  pub success_count : ℕ
  pub payload_note : String
  pub samples : Samples F

-- `make([]float64, 0, req.Iterations)`, once for each slice, which panics without room.
unfoldable pub make_slices : ℕ → ℤ → Result (Unit {0})
make_slices capacity iterations = if leb_ℤ iterations (pos capacity) then ok tt else panic

-- The guards, the slices, the loop and the reply that PureSigning and jwtIssuance share.
unfoldable pub run_benchmark :
    {F : Type 0}
    → ℕ
    → String
    → String
    → String
    → (BenchmarkSignRequest → ℕ → Result (Timing F × RuntimeStats F))
    → Result BenchmarkSignRequest
    → Result (BenchmarkResult F)
unfolding bind make_slices measure finish
run_benchmark capacity endpoint scope failure round body = bind body >>= λ req.
    if leb_ℤ req.iterations (pos 0)
    then err (fiber_error 400 "iterations must be positive")
    else make_slices capacity req.iterations >>= λ _.
        measure (round req) 0 (rounds req.iterations) no_samples >>= finish failure >>= λ s.
        ok (record {
          endpoint = endpoint;
          metric_scope = scope;
          algorithm = req.algorithm;
          jws_algorithm = header_alg_for_config_alg req.algorithm;
          iterations = req.iterations;
          warmup_iterations = warmup_rounds req.warmup_iterations;
          success_count = length s.timings;
          payload_note = req.payload_note;
          samples = s;
        })

-- PureSigning; `measured i` is what is measured around the signature of round `i`.
unfoldable pub pure_signing :
    {F Key : Type 0}
    → ℕ
    → Configs Key
    → (ℕ → F × RuntimeStats F)
    → Result BenchmarkSignRequest
    → Result (BenchmarkResult F)
unfolding run_benchmark sign_pure
pure_signing capacity configs measured =
    run_benchmark capacity "/api/benchmark/pure-signing" "pure_signing"
      "pure signing benchmark failed"
      λ req i. sign_pure configs req.algorithm (measured i) >>= λ p.
        ok (record { sign = p.0; refresh_token = none; total = none }, p.1)

-- What is given to a round of jwtIssuance: a moment and a measurement for each of the two tokens.
pub record Round (F : Type 0) : Type 0 where
  pub access_at : Moment
  pub refresh_at : Moment
  pub access_measured : F × RuntimeStats F
  pub refresh_measured : F × RuntimeStats F

module _ {F : Type 0} (f : Floats F) (util : Option JwtUtil) (user_of : String → Uuid) where
  -- One round of jwtIssuance: the milliseconds of the access token, of the refresh token and of
  -- both.
  unfoldable pub issuance_round :
      Round F → BenchmarkSignRequest → Result (Timing F × RuntimeStats F)
  unfolding sign_benchmark_token combine_stats
  issuance_round r req = do
    (_, (sign_ms, access_stats)) ←
        sign_benchmark_token util user_of r.access_at req.algorithm req.email token_use_access
          r.access_measured
    (_, (refresh_ms, refresh_stats)) ←
        sign_benchmark_token util user_of r.refresh_at req.algorithm req.email token_use_refresh
          r.refresh_measured
    ok (
      record {
        sign = sign_ms;
        refresh_token = some refresh_ms;
        total = some (f.add sign_ms refresh_ms);
      },
      combine_stats f access_stats refresh_stats,
    )

  unfoldable pub jwt_issuance :
      ℕ → String → (ℕ → Round F) → Result BenchmarkSignRequest → Result (BenchmarkResult F)
  unfolding run_benchmark issuance_round
  jwt_issuance capacity endpoint round =
      run_benchmark capacity endpoint "jwt_issuance" "jwt issuance benchmark failed"
        λ req i. issuance_round (round i) req
