-- ===== src/Fndsa/Sampler.antt =====
-- backend/pkg/fndsa/sign_sampler.go, the fast Fourier sampling that takes the Gram matrix apart on
-- its way, and sign_precomputed.go, the one that walks along a tree that has been built before.
-- Each returns t0, t1 and the generator of the sampler.
use tasktify.Prelude.{
  value_at, ℕ, zero, suc, List, [], ◌∷◌, Result, ok, panic, ◌>>=◌, ◌==◌, if◌then◌else◌,
}
use tasktify.External.Fndsa.{FndsaLib}
use tasktify.Fndsa.Tree.{LdlTree, nil, node}

-- A sampler is its degree `logn`, which never changes, and the state of its generator.
module _ {F Prng : Type 0} (lib : FndsaLib F Prng) (logn : ℕ) where
  open lib use {
    inv_f, sqrt_f, neg_f, mul_f, add_f, sub_f, of_i32, inv_sigma, add_poly, sub_poly, mul_fft,
    ldl_fft, split_fft, split_selfadj_fft, merge_fft, next,
  }

  -- Complex multiplication.
  unfoldable pub flc_mul : F → F → F → F → F × F
  flc_mul x_re x_im y_re y_im =
      (sub_f (mul_f x_re y_re) (mul_f x_im y_im), add_f (mul_f x_im y_re) (mul_f x_re y_im))

  -- f64_of_i32(s.next(mu, isigma)), with the sampler after it.
  unfoldable pub draw : Prng → F → F → F × Prng
  draw s mu isigma = let (z, pc) = next logn mu isigma s in (of_i32 z, pc)

  -- The end of the recursion, from the node (l10_re, l10_im) and its leaves, the right one first.
  unfoldable pub sample_bottom :
      Prng → F → F → F → F → List F → List F → Result (List F × List F × Prng)
  unfolding value_at draw flc_mul
  sample_bottom s l10_re l10_im right_leaf left_leaf t0 t1 = do
    w0 ← value_at t1 0
    w1 ← value_at t1 1
    let (y0, s1) = draw s w0 right_leaf
    let (y1, s2) = draw s1 w1 right_leaf
    let a_re = sub_f w0 y0
    let a_im = sub_f w1 y1
    let (b_re, b_im) = flc_mul a_re a_im l10_re l10_im
    t0_re ← value_at t0 0
    t0_im ← value_at t0 1
    let (z0, s3) = draw s2 (add_f t0_re b_re) left_leaf
    let (z1, s4) = draw s3 (add_f t0_im b_im) left_leaf
    ok (z0 ∷ z1 ∷ [], y0 ∷ y1 ∷ [], s4)

  -- ffsamp_fft_inner for logn 1: the LDL decomposition of the matrix, and the sampling.
  unfoldable pub ffsamp_bottom :
      Prng → List F → List F → List F → List F → List F → Result (List F × List F × Prng)
  unfolding value_at sample_bottom
  ffsamp_bottom s t0 t1 g00 g01 g11 = do
    g00_re ← value_at g00 0
    g01_re ← value_at g01 0
    g01_im ← value_at g01 1
    g11_re ← value_at g11 0
    let inv_g00_re = inv_f g00_re
    let mu_re = mul_f g01_re inv_g00_re
    let mu_im = mul_f g01_im inv_g00_re
    let zo_re = add_f (mul_f mu_re g01_re) (mul_f mu_im g01_im)
    let d11_re = sub_f g11_re zo_re
    sample_bottom s mu_re (neg_f mu_im) (mul_f (sqrt_f d11_re) (inv_sigma logn))
        (mul_f (sqrt_f g00_re) (inv_sigma logn)) t0 t1

  -- At logn 0 the recursion of the code has no end, which Go stops by a panic.
  unfoldable pub ffsamp_fft_inner :
      Prng → ℕ → List F → List F → List F → List F → List F → Result (List F × List F × Prng)
  unfolding ffsamp_bottom
  ffsamp_fft_inner s zero t0 t1 g00 g01 g11 = panic
  ffsamp_fft_inner s (suc zero) t0 t1 g00 g01 g11 = ffsamp_bottom s t0 t1 g00 g01 g11
  ffsamp_fft_inner s (suc (suc k)) t0 t1 g00 g01 g11 =
      let (l10, d11) = ldl_fft (suc (suc k)) g00 g01 g11 in
      let (left00, left01) = split_selfadj_fft (suc (suc k)) g00 in
      let (right00, right01) = split_selfadj_fft (suc (suc k)) d11 in
      let (w0, w1) = split_fft (suc (suc k)) t1 in
      ffsamp_fft_inner s (suc k) w0 w1 right00 right01 right00 >>= λ r.
      let (w0', w1', s1) = r in
      let z1 = merge_fft (suc (suc k)) w0' w1' in
      let w = sub_poly (suc (suc k)) t1 z1 in
      let tb0 = add_poly (suc (suc k)) t0 (mul_fft (suc (suc k)) l10 w) in
      let (v0, v1) = split_fft (suc (suc k)) tb0 in
      ffsamp_fft_inner s1 (suc k) v0 v1 left00 left01 left00 >>= λ l.
      let (v0', v1', s2) = l in ok (merge_fft (suc (suc k)) v0' v1', z1, s2)

  unfoldable pub ffsamp_fft :
      Prng → List F → List F → List F → List F → List F → Result (List F × List F × Prng)
  unfolding ffsamp_fft_inner
  ffsamp_fft s = ffsamp_fft_inner s logn

  -- tree.leaf, which panics at nil
  unfoldable pub leaf_of : LdlTree F → Result F
  leaf_of nil = panic
  leaf_of (node _ _ _ _ leaf) = ok leaf

  -- ffsamp_fft_precomputed_inner: the degree is the one of the node.
  unfoldable pub ffsamp_precomputed :
      Prng → LdlTree F → List F → List F → Result (List F × List F × Prng)
  unfolding value_at leaf_of sample_bottom
  ffsamp_precomputed s nil t0 t1 = panic
  ffsamp_precomputed s (node n l10 left right leaf) t0 t1 =
      let bottom = (do
        right_leaf ← leaf_of right
        left_leaf ← leaf_of left
        l10_re ← value_at l10 0
        l10_im ← value_at l10 1
        sample_bottom s l10_re l10_im right_leaf left_leaf t0 t1) in
      let (w0, w1) = split_fft n t1 in
      let below = ffsamp_precomputed s right w0 w1 >>= λ r.
      let (w0', w1', s1) = r in
      let z1 = merge_fft n w0' w1' in
      let w = sub_poly n t1 z1 in
      let tb0 = add_poly n t0 (mul_fft n l10 w) in
      let (v0, v1) = split_fft n tb0 in
      ffsamp_precomputed s1 left v0 v1 >>= λ l.
      let (v0', v1', s2) = l in ok (merge_fft n v0' v1', z1, s2) in
      if n == 1 then bottom else below
