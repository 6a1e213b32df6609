-- ===== src/Gateway/Benchmark/Counts.antt =====
-- The counts that backend/gateway/internal/delivery/http/handler/benchmark_handler.go reports.
use tasktify.Prelude.{
  fiber_error, ℕ, zero, suc, ◌+◌, ◌≤◌, ◌≡◌, refl, sym, ap, subst, ◌∙◌, String, List, [], ◌∷◌, ◌++◌,
  Result, ok, err, panic, ◌>>=◌, length, arith, Ensures, Ensures-ok, Ensures-bind, Bool-cases, inl,
  inr, GoError,
}
use tasktify.Prelude.Int.{pos, leb_ℤ}
use tasktify.Gateway.Http.{bind}
use tasktify.Gateway.Benchmark.{
  BenchmarkSignRequest, Timing, RuntimeStats, Samples, no_samples, keep_sample, keep_error, keep,
  measure, finish, BenchmarkResult, make_slices, run_benchmark, rounds,
}

pub length-snoc {ℓ} : {A : Type ℓ} (xs : List A) (x : A) → length (xs ++ x ∷ []) ≡ suc (length xs)
length-snoc [] x = refl
length-snoc (y ∷ ys) x = ap (λ (n : ℕ). suc n) (length-snoc ys x)

-- Each slice of resource samples has a value for each timing, and each timing is either free of
-- garbage collection or counted as contaminated.
pub record IsBalanced {F : Type 0} (s : Samples F) : Type 0 where
  pub cpu : length s.cpu ≡ length s.timings
  pub cpu_time : length s.cpu_time ≡ length s.timings
  pub alloc : length s.alloc ≡ length s.timings
  pub alloc_delta : length s.alloc_delta ≡ length s.timings
  pub sys : length s.sys ≡ length s.timings
  pub rss : length s.rss ≡ length s.timings
  pub gc : s.gc_contaminated + length s.gc_free ≡ length s.timings

module _ {F : Type 0} where
  pub snocs :
      (xs : List F) (x : F) (ts : List F) (t : F)
      → length xs ≡ length ts
      → length (xs ++ x ∷ []) ≡ length (ts ++ t ∷ [])
  snocs xs x ts t same = length-snoc xs x ∙ ap (λ (n : ℕ). suc n) same ∙ sym (length-snoc ts t)

  keep_sample-IsBalanced :
      (t : Timing F) (stats : RuntimeStats F) (s : Samples F)
      → IsBalanced s
      → IsBalanced (keep_sample t stats s)
  unfolding keep_sample
  keep_sample-IsBalanced t stats s b = record {
    cpu = snocs _ _ _ _ b.cpu;
    cpu_time = snocs _ _ _ _ b.cpu_time;
    alloc = snocs _ _ _ _ b.alloc;
    alloc_delta = snocs _ _ _ _ b.alloc_delta;
    sys = snocs _ _ _ _ b.sys;
    rss = snocs _ _ _ _ b.rss;
    gc = elim (Bool-cases stats.gc_occurred) [
      | inl dirty ↦ rw (dirty, length-snoc s.timings t.sign) (ground (arith, b.gc))
      | inr clean ↦
          rw (clean, length-snoc s.timings t.sign, length-snoc s.gc_free t.sign)
            (ground (arith, b.gc))
    ];
  }

  keep_error-IsBalanced : (e : GoError) (s : Samples F) → IsBalanced s → IsBalanced (keep_error e s)
  unfolding keep_error
  keep_error-IsBalanced e s b = record {
    cpu = b.cpu;
    cpu_time = b.cpu_time;
    alloc = b.alloc;
    alloc_delta = b.alloc_delta;
    sys = b.sys;
    rss = b.rss;
    gc = b.gc;
  }

  -- A round keeps the balance and adds at most one timing.
  keep-IsBalanced :
      (r : Result (Timing F × RuntimeStats F)) (s : Samples F)
      → IsBalanced s
      → Ensures (λ s'. IsBalanced s' × (length s'.timings ≤ suc (length s.timings))) (keep r s)
  unfolding keep keep_sample keep_error
  keep-IsBalanced (ok (t, stats)) s b =
      Ensures-ok _
        (keep_sample-IsBalanced t stats s b, ground (arith, length-snoc s.timings t.sign))
  keep-IsBalanced (err e) s b = Ensures-ok _ (keep_error-IsBalanced e s b, ground arith)
  keep-IsBalanced panic s b = record { at = λ s' p. absurd (cc p) }

  measure-IsBalanced :
      (round : ℕ → Result (Timing F × RuntimeStats F)) (i n : ℕ) (s : Samples F)
      → IsBalanced s
      → Ensures
          (λ s'. IsBalanced s' × (length s'.timings ≤ length s.timings + n))
          (measure round i n s)
  unfolding measure
  measure-IsBalanced round i zero s b = Ensures-ok s (b, ground arith)
  measure-IsBalanced round i (suc n) s b =
      Ensures-bind (keep (round i) s) (measure round (suc i) n) λ s₁ e.
        let (b₁, grown) = (keep-IsBalanced (round i) s b).at s₁ e in
        record {
          at = λ s₂ f.
              let (b₂, more) = (measure-IsBalanced round (suc i) n s₁ b₁).at s₂ f in
              (b₂, ground arith);
        }

  pub finish-some :
      (failure : String) (s : Samples F)
      → Ensures (λ s'. (s ≡ s') × (1 ≤ length s.timings)) (finish failure s)
  unfolding finish
  finish-some failure s =
      elim s.timings
        as (λ ts.
          Ensures (λ s'. (s ≡ s') × (1 ≤ length ts))
            (elim ts [ [] ↦ err (fiber_error 500 failure) | _ ∷ _ ↦ ok s ])) [
              | [] ↦ record { at = λ s' p. absurd (cc p) }
              | _ ∷ _ ↦ Ensures-ok s (refl, ground arith)
            ]

  Reports : BenchmarkResult F → Type 0
  Reports r =
      IsBalanced r.samples
      × (r.success_count ≡ length r.samples.timings)
      × (1 ≤ r.success_count)
      × (r.success_count ≤ rounds r.iterations)

  no_samples-IsBalanced : IsBalanced (no_samples {F = F})
  no_samples-IsBalanced = record {
    cpu = refl;
    cpu_time = refl;
    alloc = refl;
    alloc_delta = refl;
    sys = refl;
    rss = refl;
    gc = refl;
  }

  run_benchmark-Reports :
      (capacity : ℕ) (endpoint scope failure : String)
      (round : BenchmarkSignRequest → ℕ → Result (Timing F × RuntimeStats F))
      (body : Result BenchmarkSignRequest)
      → Ensures Reports (run_benchmark capacity endpoint scope failure round body)
  unfolding run_benchmark Reports
  run_benchmark-Reports capacity endpoint scope failure round body =
      Ensures-bind (bind body) _ λ req _. elim (Bool-cases (leb_ℤ req.iterations (pos 0))) [
        | inl none_asked ↦ rw none_asked (record { at = λ r p. absurd (cc p) })
        | inr asked ↦ rw asked (
            Ensures-bind (make_slices capacity req.iterations) _ λ _ _.
              Ensures-bind
                (measure (round req) 0 (rounds req.iterations) no_samples >>= finish failure) _
                λ s₁ e.
                  let chain : Ensures
                      (λ s'.
                        IsBalanced s'
                        × (1 ≤ length s'.timings)
                        × (length s'.timings ≤ rounds req.iterations))
                      _ =
                    Ensures-bind (measure (round req) 0 (rounds req.iterations) no_samples)
                      (finish failure)
                      λ s m. record {
                        at = λ s' q.
                            let (same, some_kept) = (finish-some failure s).at s' q in
                            let (balanced, few) =
                              (measure-IsBalanced (round req) 0 (rounds req.iterations) no_samples
                                  no_samples-IsBalanced).at
                                s m in
                            subst
                              (λ z.
                                IsBalanced z
                                × (1 ≤ length z.timings)
                                × (length z.timings ≤ rounds req.iterations))
                              same (balanced, some_kept, ground arith);
                      } in
                  let (balanced, at_least, at_most) = chain.at s₁ e in
                  Ensures-ok _ (balanced, refl, at_least, at_most))
      ]

  -- A benchmark that answers has run between one and the requested number of rounds with success;
  -- each kind of resource sample has one value for each of them, and those with and without a
  -- garbage collection add up to them.
  pub run_benchmark-IsBalanced :
      (capacity : ℕ) (endpoint scope failure : String)
      (round : BenchmarkSignRequest → ℕ → Result (Timing F × RuntimeStats F))
      (body : Result BenchmarkSignRequest) (r : BenchmarkResult F)
      → run_benchmark capacity endpoint scope failure round body ≡ ok r
      → IsBalanced r.samples
        × (r.success_count ≡ length r.samples.timings)
        × (1 ≤ r.success_count)
        × (r.success_count ≤ rounds r.iterations)
  unfolding Reports
  run_benchmark-IsBalanced capacity endpoint scope failure round body r e =
      (run_benchmark-Reports capacity endpoint scope failure round body).at r e
