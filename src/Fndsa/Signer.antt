-- ===== src/Fndsa/Signer.antt =====
-- backend/pkg/fndsa/sign_precomputed.go: PrecomputedSigner, which keeps what depends only on the
-- key, and its signing. `none` stands for a nil pointer to a signer, and as a result of signing for
-- fuel that ran out.
use tasktify.Prelude.{
  ℕ, ◌+◌, ◌^◌, ◌&&◌, Bool, false, Option, none, some, Result, ok, err, plain, ◌>>=◌, ◌>>◌, guard,
  length, ltb, leb, ◌==◌,
}
use tasktify.External.Jwt.{Bytes}
use tasktify.External.Fndsa.{FndsaLib}
use tasktify.Fndsa.Tree.{
  LdlTree, nil, node, build_ldl_tree, validate_ldl_tree, ldl_tree_persistent_bytes, f64_slice_bytes,
  signer_size,
}
use tasktify.Fndsa.Sampler.{ffsamp_precomputed}
use tasktify.Fndsa.Keys.{decode_key}
use tasktify.Fndsa.Core.{
  Basis, Message, basis_to_fft, nonce_and_subseed, encode_candidate, sign_loop,
}

pub record PrecomputedSigner (F : Type 0) : Type 0 where
  pub logn : ℕ
  pub hashed_vk : Bytes
  pub basis : Basis F
  pub tree : LdlTree F

unfoldable pub log_n : {F : Type 0} → Option (PrecomputedSigner F) → ℕ
log_n none = 0
log_n (some ps) = ps.logn

unfoldable pub persistent_bytes : {F : Type 0} → Option (PrecomputedSigner F) → ℕ
unfolding f64_slice_bytes ldl_tree_persistent_bytes
persistent_bytes none = 0
persistent_bytes (some ps) =
    signer_size
    + f64_slice_bytes ps.basis.b00
    + f64_slice_bytes ps.basis.b01
    + f64_slice_bytes ps.basis.b10
    + f64_slice_bytes ps.basis.b11
    + ldl_tree_persistent_bytes ps.tree

-- ps.tree != nil && ps.tree.logn == ps.logn
unfoldable pub has_degree : {F : Type 0} → ℕ → LdlTree F → Bool
has_degree logn nil = false
has_degree logn (node n l10 left right leaf) = n == logn

module _ {F Prng : Type 0} (lib : FndsaLib F Prng) where
  open lib use {inv_sigma_length, gram_fft, apply_basis, prng, hash_to_point}

  -- What isValid and isReadyForSign test before they look at the tree.
  unfoldable pub has_basis : PrecomputedSigner F → Bool
  has_basis ps =
      leb 1 ps.logn
      && ltb ps.logn inv_sigma_length
      && length ps.basis.b00 == 2 ^ ps.logn
      && length ps.basis.b01 == 2 ^ ps.logn
      && length ps.basis.b10 == 2 ^ ps.logn
      && length ps.basis.b11 == 2 ^ ps.logn

  unfoldable pub is_valid : Option (PrecomputedSigner F) → Bool
  unfolding has_basis validate_ldl_tree
  is_valid none = false
  is_valid (some ps) = has_basis ps && validate_ldl_tree lib ps.logn ps.tree

  unfoldable pub is_ready_for_sign : Option (PrecomputedSigner F) → Bool
  unfolding has_basis has_degree
  is_ready_for_sign none = false
  is_ready_for_sign (some ps) = has_basis ps && has_degree ps.logn ps.tree

  unfoldable pub new_precomputed_signer_inner : ℕ → ℕ → Bytes → Result (PrecomputedSigner F)
  unfolding decode_key basis_to_fft build_ldl_tree is_valid
  new_precomputed_signer_inner logn_min logn_max skey =
      decode_key lib logn_min logn_max skey >>= λ k.
      let b = basis_to_fft lib k in
      let (g00, g01, g11) = gram_fft k.logn b.b00 b.b01 b.b10 b.b11 in
      build_ldl_tree lib k.logn k.logn g00 g01 g11 >>= λ tree.
      let ps : PrecomputedSigner F = record {
        logn = k.logn;
        hashed_vk = k.hashed_vk;
        basis = b;
        tree = tree;
      } in
      guard (is_valid (some ps)) (plain "Invalid precomputed signer") >> ok ps

  unfoldable pub new_precomputed_signer : Bytes → Result (PrecomputedSigner F)
  unfolding new_precomputed_signer_inner
  new_precomputed_signer = new_precomputed_signer_inner 9 10

  unfoldable pub new_precomputed_signer_weak : Bytes → Result (PrecomputedSigner F)
  unfolding new_precomputed_signer_inner
  new_precomputed_signer_weak = new_precomputed_signer_inner 2 8

  -- One round of the loop of sign_core_precomputed.
  unfoldable pub precomputed_attempt :
      PrecomputedSigner F → Message → Bytes → ℕ → Result (Option Bytes)
  unfolding nonce_and_subseed ffsamp_precomputed encode_candidate
  precomputed_attempt ps m seed counter =
      let (nonce, subseed) = nonce_and_subseed lib seed counter in
      hash_to_point ps.logn nonce ps.hashed_vk m.ctx m.id m.content >>= λ hm.
      let (t0, t1) = apply_basis ps.logn ps.basis.b01 ps.basis.b11 hm in
      ffsamp_precomputed lib ps.logn (prng subseed) ps.tree t0 t1 >>= λ sampled.
      ok (encode_candidate lib ps.logn ps.basis hm nonce sampled.0 sampled.1)

  unfoldable pub sign_core_precomputed :
      PrecomputedSigner F → Message → Bytes → ℕ → Result (Option Bytes)
  unfolding precomputed_attempt sign_loop
  sign_core_precomputed ps m seed fuel = sign_loop (precomputed_attempt ps m seed) fuel 0

  -- PrecomputedSigner.Sign, with what the random source gives for the 40 bytes of the seed, and
  -- signSeeded.
  unfoldable pub sign_with :
      Option (PrecomputedSigner F) → Result Bytes → Message → ℕ → Result (Option Bytes)
  unfolding is_ready_for_sign sign_core_precomputed
  sign_with none read m fuel = err (plain "Invalid precomputed signer")
  sign_with (some ps) read m fuel =
      guard (is_ready_for_sign (some ps)) (plain "Invalid precomputed signer")
      >> (read >>= λ seed. sign_core_precomputed ps m seed fuel)
