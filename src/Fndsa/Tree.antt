-- ===== src/Fndsa/Tree.antt =====
-- backend/pkg/fndsa/sign_precomputed.go: the LDL tree of a key, how it is built, checked and
-- measured.
use tasktify.Prelude.{
  ℕ, zero, suc, ◌+◌, ◌*◌, ◌^◌, ◌&&◌, not, Bool, true, false, List, [], ◌∷◌, Result, ok, panic,
  value_at, ◌>>=◌, length, ◌==◌,
}
use tasktify.External.Fndsa.{FndsaLib}

-- A pointer to an ldlTree: `nil`, or a node with its fields. The nil slice is the empty list.
pub data LdlTree (F : Type 0) : Type 0 where
  nil : LdlTree F
  node : ℕ → List F → LdlTree F → LdlTree F → F → LdlTree F

-- Sizes in bytes on a 64-bit machine: of an f64, an ldlTree and a PrecomputedSigner.
abbrev pub f64_size : ℕ
f64_size = 8

abbrev pub tree_size : ℕ
tree_size = 56

abbrev pub signer_size : ℕ
signer_size = 176

unfoldable pub f64_slice_bytes : {F : Type 0} → List F → ℕ
f64_slice_bytes values = length values * f64_size

unfoldable pub ldl_tree_persistent_bytes : {F : Type 0} → LdlTree F → ℕ
unfolding f64_slice_bytes
ldl_tree_persistent_bytes nil = 0
ldl_tree_persistent_bytes (node logn l10 left right leaf) =
    tree_size
    + f64_slice_bytes l10
    + ldl_tree_persistent_bytes left
    + ldl_tree_persistent_bytes right

abbrev pub is_nil : {F : Type 0} → LdlTree F → Bool
is_nil nil = true
is_nil (node _ _ _ _ _) = false

abbrev pub is_empty : {F : Type 0} → List F → Bool
is_empty [] = true
is_empty (_ ∷ _) = false

module _ {F Prng : Type 0} (lib : FndsaLib F Prng) where
  open lib use {
    zero_f, is_zero, inv_f, sqrt_f, neg_f, mul_f, add_f, sub_f, inv_sigma, ldl_fft,
    split_selfadj_fft,
  }

  unfoldable pub validate_ldl_tree : ℕ → LdlTree F → Bool
  validate_ldl_tree logn nil = false
  validate_ldl_tree zero (node k l10 left right leaf) =
      k == 0 && is_empty l10 && is_nil left && is_nil right && not (is_zero leaf)
  validate_ldl_tree (suc logn) (node k l10 left right leaf) =
      k == suc logn
      && length l10 == 2 ^ suc logn
      && validate_ldl_tree logn left
      && validate_ldl_tree logn right

  -- &ldlTree{logn: 0, leaf: ...}
  abbrev leaf_node : ℕ → F → LdlTree F
  leaf_node root_logn d = node 0 [] nil nil (mul_f (sqrt_f d) (inv_sigma root_logn))

  -- The branch of buildLDLTree for logn 1.
  unfoldable pub build_bottom : ℕ → List F → List F → List F → Result (LdlTree F)
  unfolding value_at
  build_bottom root_logn g00 g01 g11 = do
    g00_re ← value_at g00 0
    g01_re ← value_at g01 0
    g01_im ← value_at g01 1
    g11_re ← value_at g11 0
    let inv_g00_re = inv_f g00_re
    let mu_re = mul_f g01_re inv_g00_re
    let mu_im = mul_f g01_im inv_g00_re
    let zo_re = add_f (mul_f mu_re g01_re) (mul_f mu_im g01_im)
    let d11_re = sub_f g11_re zo_re
    ok (
        node 1 (mu_re ∷ neg_f mu_im ∷ []) (leaf_node root_logn g00_re) (leaf_node root_logn d11_re)
          zero_f)

  -- At logn 0 the recursion of the code has no end, which Go stops by a panic.
  unfoldable pub build_ldl_tree : ℕ → ℕ → List F → List F → List F → Result (LdlTree F)
  unfolding build_bottom
  build_ldl_tree root_logn zero g00 g01 g11 = panic
  build_ldl_tree root_logn (suc zero) g00 g01 g11 = build_bottom root_logn g00 g01 g11
  build_ldl_tree root_logn (suc (suc k)) g00 g01 g11 =
      let (l10, d11) = ldl_fft (suc (suc k)) g00 g01 g11 in
      let (left00, left01) = split_selfadj_fft (suc (suc k)) g00 in
      let (right00, right01) = split_selfadj_fft (suc (suc k)) d11 in
      build_ldl_tree root_logn (suc k) left00 left01 left00 >>= λ left.
      build_ldl_tree root_logn (suc k) right00 right01 right00 >>= λ right.
      ok (node (suc (suc k)) l10 left right zero_f)
