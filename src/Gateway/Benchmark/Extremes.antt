-- ===== src/Gateway/Benchmark/Extremes.antt =====
-- Proofs: the statistics of samples are always there, and describe the samples in ascending order.
use mathlib.Core.List.{Perm}
use mathlib.Core.List.Perm
use tasktify.Prelude.{
  ℕ, zero, suc, ◌+◌, ◌-◌, ◌<◌, ◌≤◌, ◌≡◌, ◌⊎◌, ap, inl, inr, refl, true, false, List, [], ◌∷◌, ok,
  value_at, Returns, Returns-ok, Returns-bind, Returns-equation, length, leb, ◌==◌, In, arith,
  subst, sym, ◌∙◌, ok-injective, ◌↔◌, Bool-cases,
}
use tasktify.Gateway.Benchmark.Stats.{
  StatFloats, TimingStats, insert_sorted, sort, percentile, sum_from, compute_timing_stats,
}

-- The order of float64 compares the samples, so none of them is NaN: `x <= y` is that `y < x` is
-- false.
pub record Compares {F : Type 0} (f : StatFloats F) (samples : List F) : Type 0 where
  pub refl_le : (x : F) → In x samples → f.less x x ≡ false
  pub trans_le :
      (x y z : F)
      → In x samples
      → In y samples
      → In z samples
      → f.less y x ≡ false
      → f.less z y ≡ false
      → f.less z x ≡ false
  pub asym : (x y : F) → In x samples → In y samples → f.less x y ≡ true → f.less y x ≡ false

exchange :
    {X Y P Q : Type 0} → (Q → X ⊎ P) × (X ⊎ P → Q) → (Y ⊎ Q → X ⊎ Y ⊎ P) × (X ⊎ Y ⊎ P → Y ⊎ Q)
exchange (forth, back) = (
  λ i. elim i [
    | inl y ↦ inr (inl y)
    | inr q ↦ elim (forth q) [ inl x ↦ inl x | inr p ↦ inr (inr p) ]
  ],
  λ i. elim i [
    | inl x ↦ inr (back (inl x))
    | inr rest ↦ elim rest [ inl y ↦ inl y | inr p ↦ inr (back (inr p)) ]
  ],
)

module _ {F : Type 0} (f : StatFloats F) where
  length-insert_sorted : (x : F) (xs : List F) → length (insert_sorted f x xs) ≡ suc (length xs)
  unfolding insert_sorted
  length-insert_sorted x [] = refl
  length-insert_sorted x (y ∷ ys) = ground (arith, length-insert_sorted x ys)

  pub length-sort : (xs : List F) → length (sort f xs) ≡ length xs
  unfolding sort
  length-sort [] = refl
  length-sort (x ∷ xs) = omega (arith, length-insert_sorted x (sort f xs), length-sort xs)

  -- A value that is found is in the list.
  value_at-In : (xs : List F) (i : ℕ) → i < length xs → Returns (λ v. In v xs) (value_at xs i)
  unfolding value_at
  value_at-In [] i h = absurd (omega arith)
  value_at-In (x ∷ xs) zero h = Returns-ok x (inl refl)
  value_at-In (x ∷ xs) (suc i) h =
      let r = value_at-In xs i (omega arith) in
      record { value = r.value; returned = r.returned; holds = inr r.holds }

  -- The rank of the percentile `p` among sorted samples, a fraction of the last index.
  abbrev rank : List F → ℕ → F
  rank sorted p = f.mul (f.div (f.of_int p) (f.of_int 100)) (f.of_int (length sorted - 1))

  -- `a * (1 - w) + b * w`
  abbrev between : F → F → F → F
  between w a b = f.add (f.mul a (f.sub (f.of_int 1) w)) (f.mul b w)

  -- The value at the rank: with `lo` the whole part of the rank, either there is a sample after
  -- that at `lo`, and the value is between these two, by the rest of the rank, or the value is the
  -- last sample.
  abbrev pub IsPercentile : List F → ℕ → F → Type 0
  IsPercentile sorted p v =
      let r = rank sorted p in
      let lo = f.trunc r in
      ((lo + 1 < length sorted)
        × (a : F) × (b : F) × (value_at sorted lo ≡ ok a)
        × (value_at sorted (lo + 1) ≡ ok b)
        × (v ≡ between (f.sub r (f.of_int lo)) a b))
      ⊎ ((length sorted ≤ lo + 1) × (value_at sorted (length sorted - 1) ≡ ok v))

  pub percentile-IsPercentile :
      (sorted : List F) (p : ℕ)
      → 0 < length sorted
      → Returns (IsPercentile sorted p) (percentile f sorted p)
  unfolding percentile
  percentile-IsPercentile sorted p some_samples =
      let lo : ℕ = f.trunc (rank sorted p) in
      let last = Returns-equation (value_at-In sorted (length sorted - 1) (omega arith)) in
      elim (Bool-cases (length sorted == 1)) [
        | inl single ↦
            let one : length sorted ≡ 1 = ground arith in
            let only : ℕ = length sorted - 1 in
            let first : only ≡ 0 = omega arith in
            rw single (
              subst (λ i. Returns (IsPercentile sorted p) (value_at sorted i)) first
                (record {
                  value = last.value;
                  returned = last.returned;
                  holds = inr (omega arith, last.holds.1);
                }))
        | inr several ↦ elim (Bool-cases (leb (length sorted) (lo + 1))) [
          | inl end ↦
              rw (several, end)
                (record {
                  value = last.value;
                  returned = last.returned;
                  holds = inr (ground arith, last.holds.1);
                })
          | inr inside ↦
              rw (several, inside)
                (Returns-bind _ (Returns-equation (value_at-In sorted lo (ground arith))) λ a ia.
                  Returns-bind _ (Returns-equation (value_at-In sorted (lo + 1) (ground arith)))
                    λ b ib. Returns-ok _ (inl (ground arith, a, b, ia.1, ib.1, refl)))
        ]
      ]

  insert_sorted-In :
      (x v : F) (xs : List F)
      → (In v (insert_sorted f x xs) → (v ≡ x) ⊎ In v xs)
        × ((v ≡ x) ⊎ In v xs → In v (insert_sorted f x xs))
  unfolding insert_sorted
  insert_sorted-In x v [] = (λ i. i, λ i. i)
  insert_sorted-In x v (y ∷ ys) = elim (Bool-cases (f.less y x)) [
    | inl later ↦ rw later (exchange (insert_sorted-In x v ys))
    | inr here ↦ rw here (λ i. i, λ i. i)
  ]

  sort-In : (v : F) (xs : List F) → In v (sort f xs) ↔ In v xs
  unfolding sort
  sort-In v [] = (λ i. i, λ i. i)
  sort-In v (x ∷ xs) =
      let step = insert_sorted-In x v (sort f xs) in
      let ih = sort-In v xs in
      (
        λ i. elim (step.0 i) [ inl e ↦ inl e | inr j ↦ inr (ih.0 j) ],
        λ i. step.1 (elim i [ inl e ↦ inl e | inr j ↦ inr (ih.1 j) ]),
      )

  insert_sorted-perm : (x : F) (xs : List F) → Perm (insert_sorted f x xs) (x ∷ xs)
  unfolding insert_sorted
  insert_sorted-perm x [] = Perm.rfl
  insert_sorted-perm x (y ∷ ys) = elim (Bool-cases (f.less y x)) [
    | inl later ↦ rw later (Perm.trans (Perm.cons y (insert_sorted-perm x ys)) (Perm.swap x y ys))
    | inr here ↦ rw here Perm.rfl
  ]

  sort-perm : (xs : List F) → Perm (sort f xs) xs
  unfolding sort
  sort-perm [] = Perm.rfl
  sort-perm (x ∷ xs) = Perm.trans (insert_sorted-perm x (sort f xs)) (Perm.cons x (sort-perm xs))

  -- `x` is not above any value of the list.
  abbrev AtMost : F → List F → Type 0
  AtMost x xs = (v : F) → In v xs → f.less v x ≡ false

  abbrev pub IsSorted : List F → Type 0
  IsSorted [] = Unit
  IsSorted (x ∷ xs) = AtMost x xs × IsSorted xs

  -- What the statistics of samples say of them: `sorted` is the samples in ascending order.
  pub record IsSummary (samples : List F) (stats : TimingStats F) : Type 0 where
    pub sorted : List F
    pub rearranged : Perm sorted samples
    pub ascending : IsSorted sorted
    pub min_is_sample : In stats.min_ms samples
    pub max_is_sample : In stats.max_ms samples
    pub lower : (v : F) → In v samples → f.less v stats.min_ms ≡ false
    pub upper : (v : F) → In v samples → f.less stats.max_ms v ≡ false
    pub mean : stats.avg_ms ≡ f.div stats.sum_ms (f.of_int (length samples))
    pub p50 : IsPercentile sorted 50 stats.p50_ms
    pub p95 : IsPercentile sorted 95 stats.p95_ms
    pub p99 : IsPercentile sorted 99 stats.p99_ms

  module _ (samples : List F) (order : Compares f samples) where
    -- The values of a list are samples.
    abbrev Inside : List F → Type 0
    Inside xs = (v : F) → In v xs → In v samples

    insert_sorted-IsSorted :
        (x : F) (xs : List F)
        → In x samples
        → Inside xs
        → IsSorted xs
        → IsSorted (insert_sorted f x xs)
    unfolding insert_sorted
    insert_sorted-IsSorted x [] ix sub h = (λ v i. elim i [ ], tt)
    insert_sorted-IsSorted x (y ∷ ys) ix sub h = elim (Bool-cases (f.less y x)) [
      | inl later ↦ rw later (
        λ v i. elim ((insert_sorted-In x v ys).0 i) [
          | inl e ↦ rw e (order.asym y x (sub y (inl refl)) ix later)
          | inr j ↦ h.0 v j
        ],
        insert_sorted-IsSorted x ys ix (λ v i. sub v (inr i)) (h.1),
      )
      | inr here ↦ rw here (
        λ v i. elim i [
          | inl e ↦ rw e here
          | inr j ↦ order.trans_le x y v ix (sub y (inl refl)) (sub v (inr j)) here (h.0 v j)
        ],
        h,
      )
    ]

    sort-IsSorted : (xs : List F) → Inside xs → IsSorted (sort f xs)
    unfolding sort
    sort-IsSorted [] sub = tt
    sort-IsSorted (x ∷ xs) sub =
        insert_sorted-IsSorted x (sort f xs) (sub x (inl refl))
          (λ v i. sub v (inr ((sort-In v xs).0 i))) (sort-IsSorted xs (λ v i. sub v (inr i)))

    -- The first value is the least, and the last one the greatest.
    first_least :
        (xs : List F) (m v : F)
        → Inside xs
        → IsSorted xs
        → value_at xs 0 ≡ ok m
        → In v xs
        → f.less v m ≡ false
    unfolding value_at
    first_least [] m v sub h e i = elim i [ ]
    first_least (x ∷ xs) m v sub h e (inl here) =
        rw (here, ← ok-injective e) (order.refl_le x (sub x (inl refl)))
    first_least (x ∷ xs) m v sub h e (inr later) = rw (← ok-injective e) (h.0 v later)

    last_greatest :
        (n : ℕ) (xs : List F) (m v : F)
        → length xs ≡ suc n
        → Inside xs
        → IsSorted xs
        → value_at xs n ≡ ok m
        → In v xs
        → f.less m v ≡ false
    unfolding value_at
    last_greatest n [] m v size sub h e i = elim i [ ]
    last_greatest zero (x ∷ []) m v size sub h e (inl here) =
        rw (here, ← ok-injective e) (order.refl_le x (sub x (inl refl)))
    last_greatest zero (x ∷ []) m v size sub h e (inr later) = elim later [ ]
    last_greatest zero (x ∷ y ∷ ys) m v size sub h e i = absurd (omega arith)
    last_greatest (suc n) (x ∷ xs) m v size sub h e (inl here) =
        let r = value_at-In xs n (omega arith) in
        rw here (h.0 m (subst (λ a. In a xs) (ok-injective (sym r.returned ∙ e)) r.holds))
    last_greatest (suc n) (x ∷ xs) m v size sub h e (inr later) =
        last_greatest n xs m v (omega arith) (λ v i. sub v (inr i)) (h.1) e later

  -- For samples that the order of float64 compares, so none of them NaN, and whatever the arithmetic
  -- rounds: the statistics of one or more samples never index out of range; their minimum and
  -- maximum are samples, which bound all samples, the average is the sum by the number of samples,
  -- and the percentiles are those of the samples in ascending order at 50, 95 and 99.
  pub compute_timing_stats-IsSummary :
      (t : F) (ts : List F)
      → Compares f (t ∷ ts)
      → Returns (IsSummary (t ∷ ts)) (compute_timing_stats f (t ∷ ts))
  unfolding compute_timing_stats
  compute_timing_stats-IsSummary t ts order =
      let samples : List F = t ∷ ts in
      let sorted : List F = sort f samples in
      let size : length sorted ≡ suc (length ts) = length-sort samples in
      let sub : (v : F) → In v sorted → In v samples = λ v. (sort-In v samples).0 in
      let in_order : IsSorted sorted = sort-IsSorted samples order samples (λ v i. i) in
      let min_found = Returns-equation (value_at-In sorted 0 (omega arith)) in
      let max_found = Returns-equation (value_at-In sorted (length sorted - 1) (omega arith)) in
      Returns-bind _ min_found λ min is_min. Returns-bind _ max_found λ max is_max.
        Returns-bind _ (percentile-IsPercentile sorted 50 (omega arith)) λ p50 i50.
          Returns-bind _ (percentile-IsPercentile sorted 95 (omega arith)) λ p95 i95.
            Returns-bind _ (percentile-IsPercentile sorted 99 (omega arith)) λ p99 i99.
              Returns-ok _ (record {
                sorted = sorted;
                rearranged = sort-perm samples;
                ascending = in_order;
                min_is_sample = sub min is_min.0;
                max_is_sample = sub max is_max.0;
                lower = λ v i.
                    first_least samples order sorted min v sub in_order is_min.1
                      ((sort-In v samples).1 i);
                upper = λ v i.
                    last_greatest samples order (length sorted - 1) sorted max v (omega arith) sub
                      in_order is_max.1 ((sort-In v samples).1 i);
                mean = ap (λ n. f.div (sum_from f f.zero_f sorted) (f.of_int n)) size;
                p50 = i50;
                p95 = i95;
                p99 = i99;
              })
