-- ===== src/Examples/Arithmetic.antt =====
-- A small arithmetic for the signing of backend/pkg/fndsa: polynomials of ones, and a sampler that
-- draws 1.
use tasktify.Prelude.{
  ℕ, zero, suc, ◌+◌, ◌^◌, ◌≡◌, refl, some, List, [], ◌∷◌, ◌++◌, ok, length, leb, ◌==◌, true, arith,
}
use tasktify.Prelude.Int.{pos, pos_part}
use tasktify.External.Fndsa.{FndsaLib, IsSized}

unfoldable pub ones : {A : Type 0} → A → ℕ → List A
ones a zero = []
ones a (suc n) = a ∷ ones a n

length-ones : {A : Type 0} (a : A) (n : ℕ) → length (ones a n) ≡ n
unfolding ones
length-ones a zero = refl
length-ones a (suc n) = omega (arith, length-ones a n)

abbrev half : ℕ → List ℕ
half zero = []
half (suc n) = ones 1 (2 ^ n)

abbrev pub small_lib : FndsaLib ℕ ℕ
small_lib = record {
  zero_f = 0;
  is_zero = λ x. x == 0;
  inv_f = λ x. x;
  sqrt_f = λ x. x;
  neg_f = λ x. x;
  mul_f = λ x y. x;
  add_f = λ x y. x;
  sub_f = λ x y. x;
  of_i32 = pos_part;
  rint = pos;
  inv_sigma = λ n. 1;
  inv_sigma_length = 11;
  set_small = λ n p. ones 1 (2 ^ n);
  fft = λ n p. p;
  inverse_fft = λ n p. p;
  neg_poly = λ n p. p;
  add_poly = λ n p q. p;
  sub_poly = λ n p q. p;
  mul_fft = λ n p q. p;
  ldl_fft = λ n g00 g01 g11. (g01, g11);
  split_fft = λ n p. (half n, half n);
  split_selfadj_fft = λ n p. (half n, half n);
  merge_fft = λ n p q. p ++ q;
  gram_fft = λ n b00 b01 b10 b11. (b00, b01, b10);
  apply_basis = λ n b01 b11 hm. (b01, b11);
  prng = length;
  next = λ n mu isigma pc. (pos 1, pc + 1);
  shake256 = λ b n. ones 0 n;
  hash_to_point = λ n nonce vk ctx id text. ok (ones 3 (2 ^ n));
  small_to_int = λ n p. [];
  int_to_ntt = λ n p. p;
  ntt_to_int = λ n p. p;
  int_to_ext = λ n p. p;
  mul_ntt = λ n p q. p;
  div_ntt = λ n p q. some p;
  int_to_small = λ n p. some [];
  sqnorm_is_acceptable = λ n norm. leb norm 5000;
  trim_i8_decode = λ n b k. ok ([], 4);
  modq_encode = λ n p. [];
  comp_encode = λ n s capacity. some (ones 0 capacity);
  verify = λ key ctx id text sig. true;
}

pub small_lib-IsSized : IsSized small_lib
small_lib-IsSized = record {
  set_small_length = λ n p. length-ones 1 (2 ^ n);
  fft_length = λ n p h. h;
  neg_poly_length = λ n p h. h;
  gram_fft_length = λ n b00 b01 b10 b11 h00 h01 h10 h11. (h00, h01, h10);
  ldl_fft_length = λ n g00 g01 g11 h00 h01 h11. (h01, h11);
  split_selfadj_fft_length = λ n p h. (length-ones 1 (2 ^ n), length-ones 1 (2 ^ n));
}
