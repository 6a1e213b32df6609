-- ===== src/Fndsa/Building.antt =====
-- Proofs: a key that can be decoded makes a signer, unless a leaf of its tree is zero.
use tasktify.Prelude.{
  value_at-Returns, ℕ, zero, suc, ◌+◌, ◌^◌, ◌<◌, ◌≤◌, ◌≡◌, refl, sym, subst, true, List, [], ◌∷◌,
  ok, err, plain, length, arith, Returns, Returns-ok, Returns-bind, drop, guard->>, if◌then◌else◌,
  Ensures, Ensures-bind, Ensures-ok,
}
use tasktify.Prelude.Int.{ℤ}
use tasktify.External.Jwt.{Bytes}
use tasktify.External.Fndsa.{FndsaLib, IsSized}
use tasktify.Fndsa.Tree.{LdlTree, build_bottom, build_ldl_tree}
use tasktify.Fndsa.Keys.{
  SigningKey, decode_key, complete_key, or_fail, degree_of, head_of, nbits_fg,
}
use tasktify.Fndsa.Core.{basis_to_fft}
use tasktify.Fndsa.Signer.{is_valid, has_basis, new_precomputed_signer_inner}
use tasktify.Fndsa.Shape.{Shape, Shape-validate_ldl_tree, leaves, none_is}
use tasktify.Fndsa.Equivalence.{signer_of, gram_of}

complete_key-logn :
    {F Prng : Type 0} (lib : FndsaLib F Prng) (n : ℕ) (f g big_f : List ℤ)
    → Ensures (λ (k : SigningKey). k.logn ≡ n) (complete_key lib n f g big_f)
unfolding complete_key
complete_key-logn lib n f g big_f =
    Ensures-bind
      (or_fail
        (lib.div_ntt n (lib.int_to_ntt n (lib.small_to_int n g))
          (lib.int_to_ntt n (lib.small_to_int n f)))
        "Invalid signing key (f not invertible)")
      _
      λ h _.
        Ensures-bind
          (or_fail
            (lib.int_to_small n
              (lib.ntt_to_int n (lib.mul_ntt n (lib.int_to_ntt n (lib.small_to_int n big_f)) h)))
            "Invalid signing key (G is out-of-range)")
          _ λ big_g _. Ensures-ok _ refl

module _ (logn_min logn_max : ℕ) where
  -- The degrees that are let in.
  abbrev InRange : ℕ → Type 0
  InRange n = (logn_min ≤ n) × (n ≤ logn_max)

  degree_of-InRange : (skey : Bytes) → Ensures InRange (degree_of logn_min logn_max skey)
  unfolding degree_of head_of
  degree_of-InRange [] = record { at = λ a e. cc }
  degree_of-InRange (head1 ∷ rest) = record {
    at = λ (a : ℕ) (e : degree_of logn_min logn_max (head1 ∷ rest) ≡ ok a). ground arith;
  }

  decode_key-InRange :
      {F Prng : Type 0} (lib : FndsaLib F Prng) (skey : Bytes)
      → Ensures (λ (k : SigningKey). InRange k.logn) (decode_key lib logn_min logn_max skey)
  unfolding decode_key
  decode_key-InRange lib skey = Ensures-bind (degree_of logn_min logn_max skey) _ λ n en.
      Ensures-bind (lib.trim_i8_decode n (drop 1 skey) (nbits_fg n)) _ λ f _.
        Ensures-bind (lib.trim_i8_decode n (drop (1 + f.1) skey) (nbits_fg n)) _ λ g _.
          Ensures-bind (lib.trim_i8_decode n (drop (1 + f.1 + g.1) skey) 8) _ λ big_f _. record {
            at = λ k e.
                subst InRange (sym ((complete_key-logn lib n (f.0) (g.0) (big_f.0)).at k e))
                  ((degree_of-InRange skey).at n en);
          }

module _ {F Prng : Type 0} (lib : FndsaLib F Prng) (sized : IsSized lib) where
  build_bottom-Shape :
      (root_logn : ℕ) (g00 g01 g11 : List F)
      → length g00 ≡ 2
      → length g01 ≡ 2
      → length g11 ≡ 2
      → Returns (Shape 1) (build_bottom lib root_logn g00 g01 g11)
  unfolding build_bottom
  build_bottom-Shape root_logn g00 g01 g11 h00 h01 h11 =
      Returns-bind _ (value_at-Returns g00 0 (omega arith)) λ a _.
        Returns-bind _ (value_at-Returns g01 0 (omega arith)) λ b _.
          Returns-bind _ (value_at-Returns g01 1 (omega arith)) λ c _.
            Returns-bind _ (value_at-Returns g11 0 (omega arith))
              λ d _. Returns-ok _ (refl, refl, (refl, refl, refl, refl), (refl, refl, refl, refl))

  build_ldl_tree-Shape :
      (root_logn n : ℕ) (g00 g01 g11 : List F)
      → length g00 ≡ 2 ^ suc n
      → length g01 ≡ 2 ^ suc n
      → length g11 ≡ 2 ^ suc n
      → Returns (Shape (suc n)) (build_ldl_tree lib root_logn (suc n) g00 g01 g11)
  unfolding build_ldl_tree
  build_ldl_tree-Shape root_logn zero g00 g01 g11 h00 h01 h11 =
      build_bottom-Shape root_logn g00 g01 g11 h00 h01 h11
  build_ldl_tree-Shape root_logn (suc k) g00 g01 g11 h00 h01 h11 =
      let d : List F × List F = lib.ldl_fft (suc (suc k)) g00 g01 g11 in
      let l : List F × List F = lib.split_selfadj_fft (suc (suc k)) g00 in
      let r : List F × List F = lib.split_selfadj_fft (suc (suc k)) d.1 in
      let hd = sized.ldl_fft_length (suc (suc k)) g00 g01 g11 h00 h01 h11 in
      let hl = sized.split_selfadj_fft_length (suc k) g00 h00 in
      let hr = sized.split_selfadj_fft_length (suc k) d.1 (hd.1) in
      Returns-bind _ (build_ldl_tree-Shape root_logn k l.0 l.1 l.0 (hl.0) (hl.1) (hl.0))
        λ left hleft.
          Returns-bind _ (build_ldl_tree-Shape root_logn k r.0 r.1 r.0 (hr.0) (hr.1) (hr.0))
            λ right hright. Returns-ok _ (refl, hd.0, hleft, hright)

  -- A polynomial of the key in FFT format, and its negation.
  small_fft_length :
      (n : ℕ) (p : List ℤ)
      → (length (lib.fft n (lib.set_small n p)) ≡ 2 ^ n)
        × (length (lib.neg_poly n (lib.fft n (lib.set_small n p))) ≡ 2 ^ n)
  small_fft_length n p =
      let e = sized.fft_length n (lib.set_small n p) (sized.set_small_length n p) in
      (e, sized.neg_poly_length n _ e)

  signer_of-has_basis :
      (k : SigningKey) (tree : LdlTree F)
      → 1 ≤ k.logn
      → k.logn < lib.inv_sigma_length
      → has_basis lib (signer_of lib k tree) ≡ true
  unfolding has_basis basis_to_fft
  signer_of-has_basis k tree lower upper = ground (
    arith,
    small_fft_length k.logn k.small_f,
    small_fft_length k.logn k.small_g,
    small_fft_length k.logn k.big_f,
    small_fft_length k.logn k.big_g,
  )

  build_ldl_tree-Shape_pos :
      (root_logn n : ℕ) (g00 g01 g11 : List F)
      → 1 ≤ n
      → length g00 ≡ 2 ^ n
      → length g01 ≡ 2 ^ n
      → length g11 ≡ 2 ^ n
      → Returns (Shape n) (build_ldl_tree lib root_logn n g00 g01 g11)
  build_ldl_tree-Shape_pos root_logn zero g00 g01 g11 pos = absurd (omega arith)
  build_ldl_tree-Shape_pos root_logn (suc n) g00 g01 g11 pos =
      build_ldl_tree-Shape root_logn n g00 g01 g11

  -- Of a key that decodes, the LDL tree can be built.
  gram_of-Shape :
      (k : SigningKey)
      → 1 ≤ k.logn
      → Returns
          (Shape k.logn)
          (build_ldl_tree lib k.logn k.logn (gram_of lib k).0 (gram_of lib k).1 (gram_of lib k).2)
  unfolding basis_to_fft
  gram_of-Shape k lower =
      let f = small_fft_length k.logn k.small_f in
      let g = small_fft_length k.logn k.small_g in
      let big_f = small_fft_length k.logn k.big_f in
      let big_g = small_fft_length k.logn k.big_g in
      let sizes = sized.gram_fft_length k.logn _ _ _ _ (g.0) (f.1) (big_g.0) (big_f.1) in
      build_ldl_tree-Shape_pos k.logn k.logn _ _ _ lower (sizes.0) (sizes.1) (sizes.2)

  -- With polynomials of the documented sizes, and a table for the degrees that are let in: of a key
  -- that decodes, the LDL tree can be built, and NewPrecomputedSigner answers with the signer of
  -- the key and that tree if no leaf of it is zero, and with the error `Invalid precomputed signer`
  -- else.
  pub new_precomputed_signer_total :
      (logn_min logn_max : ℕ) (skey : Bytes) (k : SigningKey)
      → 1 ≤ logn_min
      → logn_max < lib.inv_sigma_length
      → decode_key lib logn_min logn_max skey ≡ ok k
      → (tree : LdlTree F) × (build_ldl_tree lib k.logn k.logn
            (gram_of lib k).0
            (gram_of lib k).1
            (gram_of lib k).2
          ≡ ok tree)
        × (new_precomputed_signer_inner lib logn_min logn_max skey ≡ (
            if none_is lib.is_zero (leaves k.logn tree)
            then ok (signer_of lib k tree)
            else err (plain "Invalid precomputed signer")))
  unfolding new_precomputed_signer_inner is_valid
  new_precomputed_signer_total logn_min logn_max skey k lower upper e =
      let range = (decode_key-InRange logn_min logn_max lib skey).at k e in
      let built = gram_of-Shape k (omega arith) in
      let tree = built.value in
      let basis = signer_of-has_basis k tree (omega arith) (omega arith) in
      (
        tree,
        built.returned,
        rw (e, built.returned, basis, Shape-validate_ldl_tree lib k.logn tree built.holds)
            (guard->> (none_is lib.is_zero (leaves k.logn tree))
              (plain "Invalid precomputed signer") (ok (signer_of lib k tree))),
      )
