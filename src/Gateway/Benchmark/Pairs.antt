-- ===== src/Gateway/Benchmark/Pairs.antt =====
-- Proofs on the slices that jwtIssuance fills, in
-- backend/gateway/internal/delivery/http/handler/benchmark_handler.go.
use tasktify.Prelude.{
  ℕ, zero, suc, ◌≡◌, refl, subst, String, Option, some, List, [], ◌∷◌, ◌++◌, Result, ok, err, panic,
  ◌>>=◌, length, Ensures, Ensures-ok, Ensures-bind, Bool-cases, inl, inr,
}
use tasktify.Prelude.Int.{pos, leb_ℤ}
use tasktify.External.Uuid.{Uuid}
use tasktify.Jwt.Claims.{token_use_access, token_use_refresh}
use tasktify.Jwt.Util.{JwtUtil}
use tasktify.Gateway.Http.{bind}
use tasktify.Gateway.Benchmark.{
  BenchmarkSignRequest, Floats, Timing, RuntimeStats, Samples, Round, no_samples, append,
  keep_sample, keep_error, keep, measure, finish, BenchmarkResult, make_slices, run_benchmark,
  rounds, sign_benchmark_token, issuance_round, jwt_issuance,
}
use tasktify.Gateway.Benchmark.Counts.{snocs, finish-some}

-- The slices for refresh tokens and totals have a value for each of those for access tokens.
pub record IsPaired {F : Type 0} (s : Samples F) : Type 0 where
  pub refresh_timings : length s.refresh_timings ≡ length s.timings
  pub gc_free_refresh : length s.gc_free_refresh ≡ length s.gc_free
  pub total_timings : length s.total_timings ≡ length s.timings

module _ {F : Type 0} where
  -- A round that has measured two tokens.
  abbrev pub HasBoth : Timing F × RuntimeStats F → Type 0
  HasBoth p =
      ((refresh : F) × (p.0.refresh_token ≡ some refresh))
      × ((total : F) × (p.0.total ≡ some total))

  append-length :
      (part : Option F) (x y : F) (xs ys : List F)
      → part ≡ some x
      → length xs ≡ length ys
      → length (append part xs) ≡ length (ys ++ y ∷ [])
  unfolding append
  append-length part x y xs ys e same = rw e (snocs xs x ys y same)

  keep_sample-IsPaired :
      (t : Timing F) (stats : RuntimeStats F) (s : Samples F)
      → HasBoth (t, stats)
      → IsPaired s
      → IsPaired (keep_sample t stats s)
  unfolding keep_sample
  keep_sample-IsPaired t stats s ((refresh, r), (total, b)) p = record {
    refresh_timings = append-length t.refresh_token refresh t.sign _ s.timings r p.refresh_timings;
    gc_free_refresh = elim (Bool-cases stats.gc_occurred) [
      | inl dirty ↦ rw dirty p.gc_free_refresh
      | inr clean ↦
          rw clean (append-length t.refresh_token refresh t.sign _ s.gc_free r p.gc_free_refresh)
    ];
    total_timings = append-length t.total total t.sign _ s.timings b p.total_timings;
  }

  keep-IsPaired :
      (r : Result (Timing F × RuntimeStats F)) (s : Samples F)
      → Ensures HasBoth r
      → IsPaired s
      → Ensures IsPaired (keep r s)
  unfolding keep keep_error
  keep-IsPaired (ok (t, stats)) s both p =
      Ensures-ok _ (keep_sample-IsPaired t stats s (both.at (t, stats) refl) p)
  keep-IsPaired (err e) s both p = Ensures-ok _ (record {
    refresh_timings = p.refresh_timings;
    gc_free_refresh = p.gc_free_refresh;
    total_timings = p.total_timings;
  })
  keep-IsPaired panic s both p = record { at = λ s' e. absurd (cc e) }

  measure-IsPaired :
      (round : ℕ → Result (Timing F × RuntimeStats F)) (i n : ℕ) (s : Samples F)
      → ((i : ℕ) → Ensures HasBoth (round i))
      → IsPaired s
      → Ensures IsPaired (measure round i n s)
  unfolding measure
  measure-IsPaired round i zero s both p = Ensures-ok s p
  measure-IsPaired round i (suc n) s both p =
      Ensures-bind (keep (round i) s) (measure round (suc i) n) λ s₁ e.
        measure-IsPaired round (suc i) n s₁ both ((keep-IsPaired (round i) s (both i) p).at s₁ e)

  no_samples-IsPaired : IsPaired (no_samples {F = F})
  no_samples-IsPaired = record {
    refresh_timings = refl;
    gc_free_refresh = refl;
    total_timings = refl;
  }

  measured-IsPaired :
      (failure : String) (round : ℕ → Result (Timing F × RuntimeStats F)) (n : ℕ)
      → ((i : ℕ) → Ensures HasBoth (round i))
      → Ensures IsPaired (measure round 0 n no_samples >>= finish failure)
  measured-IsPaired failure round n both =
      Ensures-bind (measure round 0 n no_samples) (finish failure) λ s m. record {
        at = λ s' e.
            subst IsPaired ((finish-some failure s).at s' e).0
              ((measure-IsPaired round 0 n no_samples both no_samples-IsPaired).at s m);
      }

  run_benchmark-IsPaired :
      (capacity : ℕ) (endpoint scope failure : String)
      (round : BenchmarkSignRequest → ℕ → Result (Timing F × RuntimeStats F))
      (body : Result BenchmarkSignRequest)
      → ((req : BenchmarkSignRequest) (i : ℕ) → Ensures HasBoth (round req i))
      → Ensures (λ r. IsPaired r.samples) (run_benchmark capacity endpoint scope failure round body)
  unfolding run_benchmark
  run_benchmark-IsPaired capacity endpoint scope failure round body both =
      Ensures-bind (bind body) _ λ req _. elim (Bool-cases (leb_ℤ req.iterations (pos 0))) [
        | inl none_asked ↦ rw none_asked (record { at = λ r p. absurd (cc p) })
        | inr asked ↦ rw asked (
            Ensures-bind (make_slices capacity req.iterations) _ λ _ _.
              Ensures-bind
                (measure (round req) 0 (rounds req.iterations) no_samples >>= finish failure) _
                λ s e. Ensures-ok _ (
                  (measured-IsPaired failure (round req) (rounds req.iterations) (both req)).at s
                    e))
      ]

module _ {F : Type 0} (f : Floats F) (util : Option JwtUtil) (user_of : String → Uuid) where
  issuance_round-HasBoth :
      (r : Round F) (req : BenchmarkSignRequest)
      → Ensures HasBoth (issuance_round f util user_of r req)
  unfolding issuance_round
  issuance_round-HasBoth r req =
      Ensures-bind
        (sign_benchmark_token util user_of r.access_at req.algorithm req.email token_use_access
          r.access_measured)
        _
        λ access _.
          Ensures-bind
            (sign_benchmark_token util user_of r.refresh_at req.algorithm req.email
              token_use_refresh r.refresh_measured)
            _ λ refresh _. Ensures-ok _ ((_, refl), (_, refl))

  -- A benchmark on the issuing of tokens that answers has as many times of refresh tokens, and of
  -- both tokens together, as times of access tokens, and among those without a garbage collection
  -- as many of refresh tokens as of access tokens.
  pub jwt_issuance-IsPaired :
      (capacity : ℕ) (endpoint : String) (round : ℕ → Round F) (body : Result BenchmarkSignRequest)
      (r : BenchmarkResult F)
      → jwt_issuance f util user_of capacity endpoint round body ≡ ok r
      → IsPaired r.samples
  unfolding jwt_issuance
  jwt_issuance-IsPaired capacity endpoint round body r e =
      (run_benchmark-IsPaired capacity endpoint "jwt_issuance" "jwt issuance benchmark failed" _
          body λ req i. issuance_round-HasBoth (round i) req).at
        r e
