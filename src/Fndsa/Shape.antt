-- ===== src/Fndsa/Shape.antt =====
-- Proofs: the shape of the trees that are built and that are valid, and the memory that they take.
use tasktify.Prelude.{
  ℕ, zero, suc, ◌+◌, ◌*◌, ◌^◌, ◌≡◌, ◌++◌, ◌&&◌, refl, Bool, true, not, some, List, [], ◌∷◌, length,
  arith,
}
use tasktify.External.Fndsa.{FndsaLib}
use tasktify.Fndsa.Tree.{
  LdlTree, nil, node, validate_ldl_tree, ldl_tree_persistent_bytes, f64_slice_bytes,
}
use tasktify.Fndsa.Signer.{PrecomputedSigner, is_valid, has_basis, persistent_bytes}

-- A full binary tree of a height, with polynomials of the right sizes.
abbrev pub Shape : {F : Type 0} → ℕ → LdlTree F → Type 0
Shape n nil = ⊥
Shape zero (node k l10 left right leaf) = (k ≡ 0) × (l10 ≡ []) × (left ≡ nil) × (right ≡ nil)
Shape (suc n) (node k l10 left right leaf) =
    (k ≡ suc n) × (length l10 ≡ 2 ^ suc n) × Shape n left × Shape n right

-- The values in the leaves, from left to right.
unfoldable pub leaves : {F : Type 0} → ℕ → LdlTree F → List F
leaves n nil = []
leaves zero (node k l10 left right leaf) = leaf ∷ []
leaves (suc n) (node k l10 left right leaf) = leaves n left ++ leaves n right

unfoldable pub none_is : {F : Type 0} → (F → Bool) → List F → Bool
none_is p [] = true
none_is p (x ∷ xs) = not (p x) && none_is p xs

none_is-append :
    {F : Type 0} (p : F → Bool) (xs ys : List F)
    → none_is p (xs ++ ys) ≡ (none_is p xs && none_is p ys)
unfolding none_is
none_is-append p [] ys = refl
none_is-append p (x ∷ xs) ys = ground (arith, none_is-append p xs ys)

module _ {F Prng : Type 0} (lib : FndsaLib F Prng) where
  validate_ldl_tree-Shape :
      (n : ℕ) (tree : LdlTree F) → validate_ldl_tree lib n tree ≡ true → Shape n tree
  unfolding validate_ldl_tree
  validate_ldl_tree-Shape n nil h = absurd (cc h)
  validate_ldl_tree-Shape zero (node k [] nil nil leaf) h = ground arith
  validate_ldl_tree-Shape zero (node k (_ ∷ _) nil nil leaf) h = ground arith
  validate_ldl_tree-Shape zero (node k l10 (node _ _ _ _ _) right leaf) h = ground arith
  validate_ldl_tree-Shape zero (node k l10 nil (node _ _ _ _ _) leaf) h = ground arith
  validate_ldl_tree-Shape (suc n) (node k l10 left right leaf) h =
      ground (arith, validate_ldl_tree-Shape n left, validate_ldl_tree-Shape n right)

  -- A tree of the right shape is valid exactly if no leaf is zero.
  pub Shape-validate_ldl_tree :
      (n : ℕ) (tree : LdlTree F)
      → Shape n tree
      → validate_ldl_tree lib n tree ≡ none_is lib.is_zero (leaves n tree)
  unfolding validate_ldl_tree leaves none_is
  Shape-validate_ldl_tree n nil h = absurd h
  Shape-validate_ldl_tree zero (node k l10 left right leaf) h =
      rw (h.0, h.1, h.2, h.3) (ground arith)
  Shape-validate_ldl_tree (suc n) (node k l10 left right leaf) h = ground (
    arith,
    none_is-append lib.is_zero (leaves n left) (leaves n right),
    Shape-validate_ldl_tree n left,
    Shape-validate_ldl_tree n right,
  )

pow_suc : (n : ℕ) → 2 ^ suc n ≡ 2 * 2 ^ n
pow_suc n = grind arith

mul_twice : (n x : ℕ) → suc n * (2 * x) ≡ 2 * (n * x) + 2 * x
mul_twice n x = grind arith

tree_bytes :
    {F : Type 0} (n : ℕ) (tree : LdlTree F)
    → Shape n tree
    → ldl_tree_persistent_bytes tree + 56 ≡ 112 * 2 ^ n + 8 * (n * 2 ^ n)
unfolding ldl_tree_persistent_bytes f64_slice_bytes
tree_bytes n nil h = absurd h
tree_bytes zero (node k l10 left right leaf) h = rw (h.1, h.2, h.3) refl
tree_bytes (suc n) (node k l10 left right leaf) h =
    let e : 2 ^ suc n ≡ 2 * 2 ^ n = pow_suc n in
    rw (h.1, e, mul_twice n (2 ^ n))
      (omega (arith, tree_bytes n left (h.2), tree_bytes n right (h.3)))

module _ {F Prng : Type 0} (lib : FndsaLib F Prng) where
  -- The memory that PersistentBytes reports of a valid signer of degree 2^logn is
  -- (144 + 8 logn) 2^logn + 120 bytes on a 64-bit machine: it depends on the degree alone.
  pub is_valid-persistent_bytes :
      (ps : PrecomputedSigner F)
      → is_valid lib (some ps) ≡ true
      → persistent_bytes (some ps) ≡ (144 + 8 * ps.logn) * 2 ^ ps.logn + 120
  unfolding is_valid has_basis persistent_bytes f64_slice_bytes
  is_valid-persistent_bytes ps h =
      let shape : Shape ps.logn ps.tree =
        validate_ldl_tree-Shape lib ps.logn ps.tree (ground arith) in
      grind (arith, tree_bytes ps.logn ps.tree shape)
