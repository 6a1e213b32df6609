-- ===== src/Fndsa/NormExact.antt =====
-- Proofs: the squared norm of a candidate, computed in 32 bits, is exact or saturated.
use tasktify.Prelude.{
  ℕ, ◌+◌, ◌-◌, ◌^◌, ◌<◌, ◌≤◌, ◌≡◌, Bool, true, false, List, [], ◌∷◌, leb, if◌then◌else◌, arith, All,
  refl,
}
use tasktify.Prelude.Int.{ℤ, pos, negsuc}
use tasktify.Fndsa.Norm.{
  first_half, second_half, int16_of, square, add_square, add_squares, squared_norm,
}

-- The sum of the squares, in ℕ.
unfoldable pub sum_squares : List ℤ → ℕ
unfolding square
sum_squares [] = 0
sum_squares (z ∷ zs) = square z + sum_squares zs

-- A value of 16 bits.
abbrev pub IsInt16 : ℤ → Type 0
IsInt16 (pos n) = n < 2 ^ 15
IsInt16 (negsuc n) = n < 2 ^ 15

square-le : (z : ℤ) → IsInt16 z → square z ≤ 2 ^ 30
unfolding square
square-le (pos n) h = grind arith
square-le (negsuc n) h = grind arith

-- What the loops keep: the sum so far, or the mark that it has passed 2^31.
abbrev Counts : ℕ → ℕ × Bool → Type 0
Counts total (sqn, ng) = (ng ≡ leb (2 ^ 31) total) × (ng ≡ false → sqn ≡ total)

add_square-Counts :
    (total : ℕ) (sqn : ℕ) (ng : Bool) (z : ℤ)
    → IsInt16 z
    → Counts total (sqn, ng)
    → Counts (total + square z) (add_square (sqn, ng) z)
unfolding add_square
add_square-Counts total sqn true z h c = ground (arith, square-le z h)
add_square-Counts total sqn false z h c = ground (arith, square-le z h)

add_squares-Counts :
    (zs : List ℤ) (total : ℕ) (acc : ℕ × Bool)
    → All IsInt16 zs
    → Counts total acc
    → Counts (total + sum_squares zs) (add_squares acc zs)
unfolding add_squares sum_squares
add_squares-Counts [] total acc h c = let e : total + 0 ≡ total = omega arith in rw e c
add_squares-Counts (z ∷ zs) total (sqn, ng) h c =
    let e : total + (square z + sum_squares zs) ≡ total + square z + sum_squares zs = omega arith in
    rw e (
      add_squares-Counts zs (total + square z) (add_square (sqn, ng) z) (h.1)
        (add_square-Counts total sqn ng z (h.0) c))

int16_of-IsInt16 : (u : ℕ) → u < 2 ^ 16 → IsInt16 (int16_of u)
unfolding int16_of
int16_of-IsInt16 u h = ground arith

module _ {F : Type 0} (rint : F → ℤ) where
  first_half-IsInt16 : (hm : List ℕ) (t0 : List F) → All IsInt16 (first_half rint hm t0)
  unfolding first_half
  first_half-IsInt16 [] t0 = tt
  first_half-IsInt16 (h ∷ hm) [] = tt
  first_half-IsInt16 (h ∷ hm) (x ∷ t0) =
      (int16_of-IsInt16 _ (omega arith), first_half-IsInt16 hm t0)

  second_half-IsInt16 : (t1 : List F) → All IsInt16 (second_half rint t1)
  unfolding second_half
  second_half-IsInt16 [] = tt
  second_half-IsInt16 (x ∷ t1) = (int16_of-IsInt16 _ (omega arith), second_half-IsInt16 t1)

  -- Whatever the hashed message and the sampled vector: the squared norm of a candidate signature,
  -- computed in 32 bits, is the sum of the squares if that is below 2^31, and 2^32 - 1 otherwise.
  pub squared_norm_exact :
      (hm : List ℕ) (t0 t1 : List F)
      → (let total : ℕ = sum_squares (first_half rint hm t0) + sum_squares (second_half rint t1) in
          squared_norm (first_half rint hm t0) (second_half rint t1)
          ≡ (if leb (2 ^ 31) total then 2 ^ 32 - 1 else total))
  unfolding squared_norm
  squared_norm_exact hm t0 t1 =
      let s1 : List ℤ = first_half rint hm t0 in
      let s2 : List ℤ = second_half rint t1 in
      let c : Counts (0 + sum_squares s1) (add_squares (0, false) s1) =
        add_squares-Counts s1 0 (0, false) (first_half-IsInt16 hm t0) (refl, λ _. refl) in
      let d : Counts (0 + sum_squares s1 + sum_squares s2)
          (add_squares (add_squares (0, false) s1) s2) =
        add_squares-Counts s2 (0 + sum_squares s1) _ (second_half-IsInt16 t1) c in
      ground arith
