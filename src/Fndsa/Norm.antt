-- ===== src/Fndsa/Norm.antt =====
-- backend/pkg/fndsa/sign_core.go and sign_precomputed.go: the coefficients of a candidate, in 16
-- bits, and their squared norm, in 32 bits.
use tasktify.Prelude.{
  ℕ, ◌+◌, ◌-◌, ◌*◌, ◌%◌, ◌^◌, ◌||◌, suc, Bool, false, List, [], ◌∷◌, ltb, leb, if◌then◌else◌,
}
use tasktify.Prelude.Int.{ℤ, pos, negsuc, mod_floor}

-- uint16(z)
unfoldable pub uint16_of : ℤ → ℕ
uint16_of z = mod_floor z (2 ^ 16)

-- int32(int16(u)) of a uint16
unfoldable pub int16_of : ℕ → ℤ
int16_of u = if ltb u (2 ^ 15) then pos u else negsuc (2 ^ 16 - 1 - u)

-- z * z, which fits an int32 for z of 16 bits
unfoldable pub square : ℤ → ℕ
square (pos n) = n * n
square (negsuc n) = suc n * suc n

module _ {F : Type 0} (rint : F → ℤ) where
  -- hm[i] - uint16(f64_rint(t0[i])), for the lists of the n values of each
  unfoldable pub first_half : List ℕ → List F → List ℤ
  unfolding int16_of uint16_of
  first_half [] t0 = []
  first_half (h ∷ hm) [] = []
  first_half (h ∷ hm) (x ∷ t0) =
      int16_of ((h + 2 ^ 16 - uint16_of (rint x)) % 2 ^ 16) ∷ first_half hm t0

  -- -uint16(f64_rint(t1[i]))
  unfoldable pub second_half : List F → List ℤ
  unfolding int16_of uint16_of
  second_half [] = []
  second_half (x ∷ t1) = int16_of ((2 ^ 16 - uint16_of (rint x)) % 2 ^ 16) ∷ second_half t1

-- One round of the loops: `sqn += uint32(z * z); ng |= sqn`. Of ng only the highest bit is read.
unfoldable pub add_square : ℕ × Bool → ℤ → ℕ × Bool
unfolding square
add_square (sqn, ng) z = let sqn' : ℕ = (sqn + square z) % 2 ^ 32 in (sqn', ng || leb (2 ^ 31) sqn')

unfoldable pub add_squares : ℕ × Bool → List ℤ → ℕ × Bool
unfolding add_square
add_squares acc [] = acc
add_squares acc (z ∷ zs) = add_squares (add_square acc z) zs

-- Both loops, and `sqn |= uint32(int32(ng) >> 31)`.
unfoldable pub squared_norm : List ℤ → List ℤ → ℕ
unfolding add_squares
squared_norm s1 s2 =
    let (sqn, ng) = add_squares (add_squares (0, false) s1) s2 in if ng then 2 ^ 32 - 1 else sqn
