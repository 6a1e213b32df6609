-- ===== src/Fndsa/Core.antt =====
-- backend/pkg/fndsa/sign_core.go: sign_core, one attempt and the loop over the attempts. The loop
-- has fuel, and its result is `none` where the fuel has run out. sign.go: sign_inner.
use tasktify.Prelude.{
  ℕ, zero, suc, ◌+◌, ◌-◌, ◌*◌, ◌/◌, ◌%◌, ◌^◌, Option, none, some, List, [], ◌∷◌, ◌++◌, Result, ok,
  ◌>>=◌, take, drop, if◌then◌else◌,
}
use tasktify.External.Jwt.{Bytes}
use tasktify.External.Fndsa.{FndsaLib}
use tasktify.Fndsa.Sampler.{ffsamp_fft}
use tasktify.Fndsa.Norm.{first_half, second_half, squared_norm}
use tasktify.Fndsa.Keys.{SigningKey, decode_key}

-- SignatureSize; the shifts are to the right by 10 - logn.
unfoldable pub signature_size : ℕ → ℕ
signature_size logn =
    let k : ℕ = 2 ^ (10 - logn) in
    44 + 3 * (256 / k) + 2 * (128 / k) + 3 * (64 / k) + 2 * (16 / k) - 2 * (2 / k) - 8 * (1 / k)

-- What is signed: the domain context, the identifier of the pre-hash function, and the data.
pub record Message : Type 0 where
  pub ctx : Bytes
  pub id : ℕ
  pub content : Bytes

-- The basis [[g, -f], [G, -F]] in FFT format.
pub record Basis (F : Type 0) : Type 0 where
  pub b00 : List F
  pub b01 : List F
  pub b10 : List F
  pub b11 : List F

-- cbuf: the low 32 bits of the counter
unfoldable pub counter_bytes : ℕ → Bytes
counter_bytes c = c % 256 ∷ c / 2 ^ 8 % 256 ∷ c / 2 ^ 16 % 256 ∷ c / 2 ^ 24 % 256 ∷ []

-- The loop, from a counter on, over attempts that give a signature, none, or an error.
unfoldable pub sign_loop : (ℕ → Result (Option Bytes)) → ℕ → ℕ → Result (Option Bytes)
sign_loop attempt zero counter = ok none
sign_loop attempt (suc fuel) counter = attempt counter >>= λ found. elim found [
  | none ↦ sign_loop attempt fuel (counter + 1)
  | some sig ↦ ok (some sig)
]

module _ {F Prng : Type 0} (lib : FndsaLib F Prng) where
  open lib use {
    set_small, fft, inverse_fft, neg_poly, add_poly, mul_fft, gram_fft, apply_basis, rint, prng,
    shake256, hash_to_point, sqnorm_is_acceptable, comp_encode,
  }

  unfoldable pub basis_to_fft : SigningKey → Basis F
  basis_to_fft k = record {
    b00 = fft k.logn (set_small k.logn k.small_g);
    b01 = neg_poly k.logn (fft k.logn (set_small k.logn k.small_f));
    b10 = fft k.logn (set_small k.logn k.big_g);
    b11 = neg_poly k.logn (fft k.logn (set_small k.logn k.big_f));
  }

  -- 96 bytes from the seed and the counter: the nonce and the seed of the sampler.
  unfoldable pub nonce_and_subseed : Bytes → ℕ → Bytes × Bytes
  unfolding counter_bytes
  nonce_and_subseed seed counter =
      let out : Bytes = shake256 (seed ++ counter_bytes counter) 96 in (take 40 out, drop 40 out)

  -- From the sampled vector to the signature: the lattice point, its norm and its encoding, which
  -- fills the signature behind its first 41 bytes.
  unfoldable pub encode_candidate : ℕ → Basis F → List ℕ → Bytes → List F → List F → Option Bytes
  unfolding first_half second_half squared_norm signature_size
  encode_candidate logn b hm nonce t0 t1 =
      let tx = add_poly logn (mul_fft logn t0 b.b00) (mul_fft logn t1 b.b10) in
      let ty = mul_fft logn t0 b.b01 in
      let point0 = inverse_fft logn tx in
      let point1 = inverse_fft logn (add_poly logn (mul_fft logn t1 b.b11) ty) in
      let s1 = first_half rint hm point0 in
      let s2 = second_half rint point1 in
      if sqnorm_is_acceptable logn (squared_norm s1 s2)
      then (elim (comp_encode logn s2 (signature_size logn - 41)) [
        | none ↦ none
        | some encoded ↦ some ((48 + logn) ∷ nonce ++ encoded)
      ])
      else none

  -- One round of the loop of sign_core.
  unfoldable pub core_attempt : SigningKey → Message → Bytes → ℕ → Result (Option Bytes)
  unfolding nonce_and_subseed basis_to_fft ffsamp_fft encode_candidate
  core_attempt k m seed counter =
      let (nonce, subseed) = nonce_and_subseed seed counter in
      hash_to_point k.logn nonce k.hashed_vk m.ctx m.id m.content >>= λ hm.
      let b = basis_to_fft k in
      let (g00, g01, g11) = gram_fft k.logn b.b00 b.b01 b.b10 b.b11 in
      let (t0, t1) = apply_basis k.logn b.b01 b.b11 hm in
      ffsamp_fft lib k.logn (prng subseed) t0 t1 g00 g01 g11 >>= λ sampled.
      ok (encode_candidate k.logn b hm nonce sampled.0 sampled.1)

  unfoldable pub sign_core : SigningKey → Message → Bytes → ℕ → Result (Option Bytes)
  unfolding core_attempt sign_loop
  sign_core k m seed fuel = sign_loop (core_attempt k m seed) fuel 0

  unfoldable pub sign_inner_seeded : ℕ → ℕ → Bytes → Bytes → Message → ℕ → Result (Option Bytes)
  unfolding decode_key sign_core
  sign_inner_seeded logn_min logn_max seed skey m fuel =
      decode_key lib logn_min logn_max skey >>= λ k. sign_core k m seed fuel

  -- `read` is what the random source gives for the 40 bytes of the seed.
  unfoldable pub sign_inner : ℕ → ℕ → Result Bytes → Bytes → Message → ℕ → Result (Option Bytes)
  unfolding sign_inner_seeded
  sign_inner logn_min logn_max read skey m fuel =
      read >>= λ seed. sign_inner_seeded logn_min logn_max seed skey m fuel

  -- Sign: the standard degrees.
  unfoldable pub sign : Result Bytes → Bytes → Message → ℕ → Result (Option Bytes)
  unfolding sign_inner
  sign = sign_inner 9 10

  -- SignWeak
  unfoldable pub sign_weak : Result Bytes → Bytes → Message → ℕ → Result (Option Bytes)
  unfolding sign_inner
  sign_weak = sign_inner 2 8
