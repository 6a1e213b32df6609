-- ===== src/Fndsa/Keys.antt =====
-- backend/pkg/fndsa/sign.go, and the same lines of sign_precomputed.go: the decoding of a signing
-- key, with the rest of the basis and the hash of the verifying key that are computed from it.
-- util.go: sizes.
use tasktify.Prelude.{
  ℕ, String, ◌+◌, ◌-◌, ◌*◌, ◌/◌, ◌%◌, ◌^◌, ◌||◌, not, Option, none, some, List, [], ◌∷◌, Result, ok,
  err, plain, ◌>>=◌, ◌>>◌, guard, drop, length, ltb, leb, ◌==◌, if◌then◌else◌, ◌&&◌,
}
use tasktify.Prelude.Int.{ℤ}
use tasktify.External.Jwt.{Bytes}
use tasktify.External.Fndsa.{FndsaLib}

unfoldable pub nbits_fg : ℕ → ℕ
nbits_fg logn =
    if leb 2 logn && leb logn 5
    then 8
    else if logn == 6 || logn == 7
    then 7
    else if logn == 8 || logn == 9
    then 6
    else 5

-- `x << (logn - 2)` for the degrees that are let in, from 2 on.
unfoldable pub signing_key_size : ℕ → ℕ
unfolding nbits_fg
signing_key_size logn = 1 + nbits_fg logn * 2 ^ (logn - 2) + 2 ^ logn

-- A decoded key: the degree, f, g, F and G, and the hashed verifying key.
pub record SigningKey : Type 0 where
  pub logn : ℕ
  pub small_f : List ℤ
  pub small_g : List ℤ
  pub big_f : List ℤ
  pub big_g : List ℤ
  pub hashed_vk : Bytes

-- The first byte, with `none` for an empty key, and the degree in its low half.
unfoldable pub head_of : Bytes → Option ℕ
head_of [] = none
head_of (h ∷ rest) = some h

unfoldable pub degree_of : ℕ → ℕ → Bytes → Result ℕ
unfolding head_of signing_key_size
degree_of logn_min logn_max skey = elim (head_of skey) [
  | none ↦ err (plain "Invalid private key")
  | some head1 ↦
      guard (head1 / 16 % 16 == 5) (plain "Invalid private key")
      >> guard (not (ltb (head1 % 16) logn_min || ltb logn_max (head1 % 16)))
          (plain "Invalid private key")
      >> guard (length skey == signing_key_size (head1 % 16)) (plain "Invalid private key")
      >> ok (head1 % 16)
]

abbrev pub or_fail {ℓ} : {A : Type ℓ} → Option A → String → Result A
or_fail none message = err (plain message)
or_fail (some a) message = ok a

module _ {F Prng : Type 0} (lib : FndsaLib F Prng) where
  open lib use {
    trim_i8_decode, small_to_int, int_to_ntt, ntt_to_int, int_to_ext, mul_ntt, div_ntt,
    int_to_small, modq_encode, shake256,
  }

  -- From h = g / f and G = h F to the key.
  unfoldable pub complete_key : ℕ → List ℤ → List ℤ → List ℤ → Result SigningKey
  complete_key n f g big_f = do
    let g_ntt = int_to_ntt n (small_to_int n g)
    let f_ntt = int_to_ntt n (small_to_int n f)
    h ← or_fail (div_ntt n g_ntt f_ntt) "Invalid signing key (f not invertible)"
    let product = ntt_to_int n (mul_ntt n (int_to_ntt n (small_to_int n big_f)) h)
    big_g ← or_fail (int_to_small n product) "Invalid signing key (G is out-of-range)"
    let vrfy_key = n ∷ modq_encode n (int_to_ext n (ntt_to_int n h))
    ok (record {
      logn = n;
      small_f = f;
      small_g = g;
      big_f = big_f;
      big_g = big_g;
      hashed_vk = shake256 vrfy_key 64;
    })

  unfoldable pub decode_key : ℕ → ℕ → Bytes → Result SigningKey
  unfolding degree_of nbits_fg complete_key
  decode_key logn_min logn_max skey = do
    n ← degree_of logn_min logn_max skey
    (f, read_f) ← trim_i8_decode n (drop 1 skey) (nbits_fg n)
    (g, read_g) ← trim_i8_decode n (drop (1 + read_f) skey) (nbits_fg n)
    (big_f, _) ← trim_i8_decode n (drop (1 + read_f + read_g) skey) 8
    complete_key n f g big_f
