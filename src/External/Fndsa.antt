-- ===== src/External/Fndsa.antt =====
-- The arithmetic of backend/pkg/fndsa, a copy of an FN-DSA library: what its signing code calls, as
-- a parameter. `F` is f64, a polynomial is the list of its values in order, and `Prng` is the state
-- of the sampler's generator.
use tasktify.Prelude.{ℕ, ◌^◌, ◌≡◌, suc, List, Option, Bool, Result, length}
use tasktify.Prelude.Int.{ℤ}
use tasktify.External.Jwt.{Bytes}

pub record FndsaLib (F Prng : Type 0) : Type 0 where
  -- sign_flr_*.go: f64_ZERO, the comparison with it, and the operations
  pub zero_f : F
  pub is_zero : F → Bool
  pub inv_f : F → F
  pub sqrt_f : F → F
  pub neg_f : F → F
  pub mul_f : F → F → F
  pub add_f : F → F → F
  pub sub_f : F → F → F
  pub of_i32 : ℤ → F
  pub rint : F → ℤ
  -- the table inv_sigma, which has `inv_sigma_length` entries
  pub inv_sigma : ℕ → F
  pub inv_sigma_length : ℕ
  -- sign_fpoly.go, where the slices that a call writes are its results
  pub set_small : ℕ → List ℤ → List F
  pub fft : ℕ → List F → List F
  pub inverse_fft : ℕ → List F → List F
  pub neg_poly : ℕ → List F → List F
  pub add_poly : ℕ → List F → List F → List F
  pub sub_poly : ℕ → List F → List F → List F
  pub mul_fft : ℕ → List F → List F → List F
  -- l10 and d11, for g01 and g11
  pub ldl_fft : ℕ → List F → List F → List F → List F × List F
  pub split_fft : ℕ → List F → List F × List F
  pub split_selfadj_fft : ℕ → List F → List F × List F
  pub merge_fft : ℕ → List F → List F → List F
  -- g00, g01 and g11, for b00, b01 and b10
  pub gram_fft : ℕ → List F → List F → List F → List F → List F × List F × List F
  -- t0 and t1, from b01, b11 and the hashed message
  pub apply_basis : ℕ → List F → List F → List ℕ → List F × List F
  -- sign_sampler.go: the generator of a seed, and sampler.next with the sampler's degree
  pub prng : Bytes → Prng
  pub next : ℕ → F → F → Prng → ℤ × Prng
  -- util.go and SHAKE256: the first bytes of the output for an input
  pub shake256 : Bytes → ℕ → Bytes
  pub hash_to_point : ℕ → Bytes → Bytes → Bytes → ℕ → Bytes → Result (List ℕ)
  -- mq.go, with `none` for false
  pub small_to_int : ℕ → List ℤ → List ℕ
  pub int_to_ntt : ℕ → List ℕ → List ℕ
  pub ntt_to_int : ℕ → List ℕ → List ℕ
  pub int_to_ext : ℕ → List ℕ → List ℕ
  pub mul_ntt : ℕ → List ℕ → List ℕ → List ℕ
  pub div_ntt : ℕ → List ℕ → List ℕ → Option (List ℕ)
  pub int_to_small : ℕ → List ℕ → Option (List ℤ)
  pub sqnorm_is_acceptable : ℕ → ℕ → Bool
  -- codec.go: a decoded polynomial with the number of bytes that were read, and encodings
  pub trim_i8_decode : ℕ → Bytes → ℕ → Result (List ℤ × ℕ)
  pub modq_encode : ℕ → List ℕ → Bytes
  pub comp_encode : ℕ → List ℤ → ℕ → Option Bytes
  -- vrfy.go: Verify, for the standard degrees
  pub verify : Bytes → Bytes → ℕ → Bytes → Bytes → Bool

-- What is documented of the sizes: polynomials of degree 2^logn keep their number of values, and
-- splitting halves it.
pub record IsSized {F Prng : Type 0} (lib : FndsaLib F Prng) : Type 0 where
  pub set_small_length : (n : ℕ) (p : List ℤ) → length (lib.set_small n p) ≡ 2 ^ n
  pub fft_length : (n : ℕ) (p : List F) → length p ≡ 2 ^ n → length (lib.fft n p) ≡ 2 ^ n
  pub neg_poly_length : (n : ℕ) (p : List F) → length p ≡ 2 ^ n → length (lib.neg_poly n p) ≡ 2 ^ n
  pub gram_fft_length :
      (n : ℕ) (b00 b01 b10 b11 : List F)
      → length b00 ≡ 2 ^ n
      → length b01 ≡ 2 ^ n
      → length b10 ≡ 2 ^ n
      → length b11 ≡ 2 ^ n
      → (length (lib.gram_fft n b00 b01 b10 b11).0 ≡ 2 ^ n)
        × (length (lib.gram_fft n b00 b01 b10 b11).1 ≡ 2 ^ n)
        × (length (lib.gram_fft n b00 b01 b10 b11).2 ≡ 2 ^ n)
  pub ldl_fft_length :
      (n : ℕ) (g00 g01 g11 : List F)
      → length g00 ≡ 2 ^ n
      → length g01 ≡ 2 ^ n
      → length g11 ≡ 2 ^ n
      → (length (lib.ldl_fft n g00 g01 g11).0 ≡ 2 ^ n)
        × (length (lib.ldl_fft n g00 g01 g11).1 ≡ 2 ^ n)
  pub split_selfadj_fft_length :
      (n : ℕ) (p : List F)
      → length p ≡ 2 ^ suc n
      → (length (lib.split_selfadj_fft (suc n) p).0 ≡ 2 ^ n)
        × (length (lib.split_selfadj_fft (suc n) p).1 ≡ 2 ^ n)
