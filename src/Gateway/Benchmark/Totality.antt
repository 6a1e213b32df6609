-- ===== src/Gateway/Benchmark/Totality.antt =====
-- The loops of backend/gateway/internal/delivery/http/handler/benchmark_handler.go where no round
-- fails.
use tasktify.Prelude.{
  ℕ, zero, suc, ◌+◌, ◌≡◌, refl, ◌∙◌, String, [], ◌∷◌, Result, ok, err, length, arith, false, true,
  fiber_error,
}
use tasktify.Prelude.Int.{ℤ, pos, negsuc, leb_ℤ}
use tasktify.Jwt.Claims.{header_alg_for_config_alg}
use tasktify.Gateway.Http.{bind}
use tasktify.Gateway.Benchmark.{
  BenchmarkSignRequest, Timing, RuntimeStats, Samples, no_samples, keep_sample, keep, measure,
  finish, BenchmarkResult, make_slices, run_benchmark, rounds, warmup_rounds,
}
use tasktify.Gateway.Benchmark.Counts.{length-snoc}

pub positive : (n : ℤ) → leb_ℤ n (pos 0) ≡ false → (k : ℕ) × (rounds n ≡ suc k)
unfolding rounds
positive (pos zero) e = absurd (ground arith)
positive (pos (suc k)) e = (k, refl)
positive (negsuc k) e = absurd (ground arith)

module _ {F : Type 0} where
  -- Every round succeeds.
  abbrev pub Succeeds : (ℕ → Result (Timing F × RuntimeStats F)) → Type 0
  Succeeds round = (i : ℕ) → (p : Timing F × RuntimeStats F) × (round i ≡ ok p)

  measure_all :
      (round : ℕ → Result (Timing F × RuntimeStats F)) (i n : ℕ) (s : Samples F)
      → Succeeds round
      → (s' : Samples F) × (measure round i n s ≡ ok s')
        × (length s'.timings ≡ length s.timings + n)
  unfolding measure keep keep_sample
  measure_all round i zero s all = (s, refl, ground arith)
  measure_all round i (suc n) s all =
      let ((t, stats), succeeded) = all i in
      let (s', measured, counted) = measure_all round (suc i) n (keep_sample t stats s) all in
      (s', rw succeeded measured, ground (arith, counted, length-snoc s.timings t.sign))

  finish_counted :
      (failure : String) (s : Samples F) (n : ℕ)
      → length s.timings ≡ suc n
      → finish failure s ≡ ok s
  unfolding finish
  finish_counted failure s n counted =
      elim s.timings
          as (λ ts.
            length ts ≡ suc n
            → ◌≡◌ {A = Result (Samples F)}
                (elim ts [ [] ↦ err (fiber_error 500 failure) | _ ∷ _ ↦ ok s ]) (ok s)) [
                  | [] ↦ λ e. absurd (ground arith)
                  | _ ∷ _ ↦ λ e. refl
                ]
        counted

  -- A benchmark with a positive number of rounds, for whose samples there is room and all of which
  -- succeed, answers, and reports that number of successes.
  pub run_benchmark-rounds :
      (capacity : ℕ) (endpoint scope failure : String)
      (round : BenchmarkSignRequest → ℕ → Result (Timing F × RuntimeStats F))
      (req : BenchmarkSignRequest)
      → leb_ℤ req.iterations (pos 0) ≡ false
      → leb_ℤ req.iterations (pos capacity) ≡ true
      → Succeeds (round req)
      → (r : BenchmarkResult F) × (run_benchmark capacity endpoint scope failure round (ok req)
          ≡ ok r)
        × (r.success_count ≡ rounds req.iterations)
  unfolding run_benchmark bind make_slices
  run_benchmark-rounds capacity endpoint scope failure round req asked fits all =
      let (s, measured, counted) =
        measure_all (round req) 0 (rounds req.iterations) no_samples all in
      let (k, more) = positive req.iterations asked in
      let total : length s.timings ≡ rounds req.iterations = ground (arith, counted) in
      let r : BenchmarkResult F = record {
        endpoint = endpoint;
        metric_scope = scope;
        algorithm = req.algorithm;
        jws_algorithm = header_alg_for_config_alg req.algorithm;
        iterations = req.iterations;
        warmup_iterations = warmup_rounds req.warmup_iterations;
        success_count = length s.timings;
        payload_note = req.payload_note;
        samples = s;
      } in
      (r, rw (asked, fits, measured, finish_counted failure s k (total ∙ more)) refl, total)
