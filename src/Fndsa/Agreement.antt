-- ===== src/Fndsa/Agreement.antt =====
-- Proofs: the sampling along the tree of a Gram matrix is the sampling that takes the matrix apart.
use tasktify.Prelude.{
  value_at, ℕ, zero, suc, List, false, ◌==◌, ◌≡◌, refl, arith, Ensures, Ensures-bind, Ensures-ok,
}
use tasktify.External.Fndsa.{FndsaLib}
use tasktify.Fndsa.Tree.{LdlTree, node, build_ldl_tree, build_bottom}
use tasktify.Fndsa.Sampler.{ffsamp_precomputed, ffsamp_fft_inner, leaf_of}

module _ {F Prng : Type 0} (lib : FndsaLib F Prng) (logn : ℕ) where
  -- A tree that stands for a Gram matrix, whatever the target and the generator.
  abbrev pub Samples : ℕ → List F → List F → List F → LdlTree F → Type 0
  Samples n g00 g01 g11 tree =
      (s : Prng) (t0 t1 : List F)
      → ffsamp_precomputed lib logn s tree t0 t1 ≡ ffsamp_fft_inner lib logn s n t0 t1 g00 g01 g11

  build_bottom-Samples :
      (g00 g01 g11 : List F) → Ensures (Samples 1 g00 g01 g11) (build_bottom lib logn g00 g01 g11)
  unfolding build_bottom ffsamp_precomputed ffsamp_fft_inner leaf_of
  build_bottom-Samples g00 g01 g11 = Ensures-bind (value_at g00 0) _ λ a ea.
      Ensures-bind (value_at g01 0) _ λ b eb. Ensures-bind (value_at g01 1) _ λ c ec.
        Ensures-bind (value_at g11 0) _ λ d ed. Ensures-ok _ (λ s t0 t1. rw (ea, eb, ec, ed) refl)

  node-Samples :
      (k : ℕ) (g00 g01 g11 : List F) (left right : LdlTree F)
      → (let l : List F × List F = lib.split_selfadj_fft (suc (suc k)) g00 in
          Samples (suc k) l.0 l.1 l.0 left)
      → (let d : List F × List F = lib.ldl_fft (suc (suc k)) g00 g01 g11 in
          let r : List F × List F = lib.split_selfadj_fft (suc (suc k)) d.1 in
          Samples (suc k) r.0 r.1 r.0 right)
      → Samples
          (suc (suc k))
          g00
          g01
          g11
          (node (suc (suc k)) (lib.ldl_fft (suc (suc k)) g00 g01 g11).0 left right lib.zero_f)
  unfolding ffsamp_precomputed ffsamp_fft_inner
  node-Samples k g00 g01 g11 left right hl hr s t0 t1 =
      let e : (suc (suc k) == 1) ≡ false = ground arith in rw e (simp (hl, hr))

  pub build_ldl_tree-Samples :
      (n : ℕ) (g00 g01 g11 : List F)
      → Ensures (Samples n g00 g01 g11) (build_ldl_tree lib logn n g00 g01 g11)
  unfolding build_ldl_tree
  build_ldl_tree-Samples zero g00 g01 g11 = record { at = λ a e. cc }
  build_ldl_tree-Samples (suc zero) g00 g01 g11 = build_bottom-Samples g00 g01 g11
  build_ldl_tree-Samples (suc (suc k)) g00 g01 g11 =
      let l : List F × List F = lib.split_selfadj_fft (suc (suc k)) g00 in
      let d : List F × List F = lib.ldl_fft (suc (suc k)) g00 g01 g11 in
      let r : List F × List F = lib.split_selfadj_fft (suc (suc k)) d.1 in
      Ensures-bind (build_ldl_tree lib logn (suc k) l.0 l.1 l.0) _ λ left el.
        Ensures-bind (build_ldl_tree lib logn (suc k) r.0 r.1 r.0) _ λ right er. Ensures-ok _ (
          node-Samples k g00 g01 g11 left right
            ((build_ldl_tree-Samples (suc k) l.0 l.1 l.0).at left el)
            ((build_ldl_tree-Samples (suc k) r.0 r.1 r.0).at right er))
