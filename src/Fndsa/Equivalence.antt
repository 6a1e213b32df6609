-- ===== src/Fndsa/Equivalence.antt =====
-- Proofs: a precomputed signer signs what the signing of its key signs.
use tasktify.Prelude.{
  ℕ, zero, suc, ap, Ensures-guard, true, some, List, ◌≡◌, Result, ok, ◌>>=◌, arith, Ensures,
  Ensures-bind, Ensures-ok,
}
use tasktify.External.Jwt.{Bytes}
use tasktify.External.Fndsa.{FndsaLib}
use mathlib.Core.Path.{fun_ext}
use tasktify.Fndsa.Tree.{LdlTree, nil, node, build_ldl_tree, validate_ldl_tree}
use tasktify.Fndsa.Sampler.{ffsamp_fft}
use tasktify.Fndsa.Agreement.{Samples, build_ldl_tree-Samples}
use tasktify.Fndsa.Keys.{SigningKey, decode_key}
use tasktify.Fndsa.Core.{
  Message, basis_to_fft, core_attempt, sign_core, sign_inner, sign_inner_seeded,
}
use tasktify.Fndsa.Signer.{
  PrecomputedSigner, has_degree, is_valid, is_ready_for_sign, new_precomputed_signer_inner,
  precomputed_attempt, sign_core_precomputed, sign_with,
}

module _ {F Prng : Type 0} (lib : FndsaLib F Prng) where
  validate_ldl_tree-has_degree :
      (n : ℕ) (tree : LdlTree F) → validate_ldl_tree lib n tree ≡ true → has_degree n tree ≡ true
  unfolding validate_ldl_tree has_degree
  validate_ldl_tree-has_degree n nil h = absurd (cc h)
  validate_ldl_tree-has_degree zero (node k l10 left right leaf) h = ground arith
  validate_ldl_tree-has_degree (suc n) (node k l10 left right leaf) h = ground arith

  pub is_valid-is_ready_for_sign :
      (ps : PrecomputedSigner F)
      → is_valid lib (some ps) ≡ true
      → is_ready_for_sign lib (some ps) ≡ true
  unfolding is_valid is_ready_for_sign
  is_valid-is_ready_for_sign ps h = ground (arith, validate_ldl_tree-has_degree ps.logn ps.tree)

  -- The signer that the key and a tree make.
  abbrev pub signer_of : SigningKey → LdlTree F → PrecomputedSigner F
  signer_of k tree = record {
    logn = k.logn;
    hashed_vk = k.hashed_vk;
    basis = basis_to_fft lib k;
    tree = tree;
  }

  -- The Gram matrix of the key's basis.
  abbrev pub gram_of : SigningKey → List F × List F × List F
  gram_of k = let b = basis_to_fft lib k in lib.gram_fft k.logn b.b00 b.b01 b.b10 b.b11

  attempt_agrees :
      (k : SigningKey) (tree : LdlTree F) (m : Message) (seed : Bytes) (c : ℕ)
      → Samples lib k.logn k.logn (gram_of k).0 (gram_of k).1 (gram_of k).2 tree
      → precomputed_attempt lib (signer_of k tree) m seed c ≡ core_attempt lib k m seed c
  unfolding precomputed_attempt core_attempt ffsamp_fft
  attempt_agrees k tree m seed c h = simp h

  sign_core_agrees :
      (k : SigningKey) (tree : LdlTree F) (m : Message) (seed : Bytes) (fuel : ℕ)
      → Samples lib k.logn k.logn (gram_of k).0 (gram_of k).1 (gram_of k).2 tree
      → sign_core_precomputed lib (signer_of k tree) m seed fuel ≡ sign_core lib k m seed fuel
  unfolding sign_core_precomputed sign_core
  sign_core_agrees k tree m seed fuel h = rw (fun_ext (λ c. attempt_agrees k tree m seed c h))

  -- `ps` signs as the key does, for every random source, message and number of rounds.
  abbrev SignsAs : ℕ → ℕ → Bytes → PrecomputedSigner F → Type 0
  SignsAs logn_min logn_max skey ps =
      (read : Result Bytes) (m : Message) (fuel : ℕ)
      → sign_with lib (some ps) read m fuel ≡ sign_inner lib logn_min logn_max read skey m fuel

  new_precomputed_signer-SignsAs :
      (logn_min logn_max : ℕ) (skey : Bytes)
      → Ensures
          (SignsAs logn_min logn_max skey)
          (new_precomputed_signer_inner lib logn_min logn_max skey)
  unfolding new_precomputed_signer_inner sign_with sign_inner sign_inner_seeded
  new_precomputed_signer-SignsAs logn_min logn_max skey =
      Ensures-bind (decode_key lib logn_min logn_max skey) _ λ k ek.
        let g = gram_of k in
        Ensures-bind (build_ldl_tree lib k.logn k.logn g.0 g.1 g.2) _ λ tree et.
          Ensures-guard (is_valid lib (some (signer_of k tree))) _ _ λ valid.
            Ensures-ok (signer_of k tree) (λ read m fuel.
              rw (is_valid-is_ready_for_sign (signer_of k tree) valid) (
                ap (λ f. read >>= f)
                  (fun_ext (λ seed. rw ek (
                    sign_core_agrees k tree m seed fuel
                      ((build_ldl_tree-Samples lib k.logn k.logn g.0 g.1 g.2).at tree et))))))

  -- Whatever the key: if NewPrecomputedSigner makes a signer of it, then Sign of the signer comes
  -- to what Sign comes to with the key itself, for the same random source, message and number of
  -- rounds: the same signature, the same error, or no end yet.
  pub sign_with-eq-sign_inner :
      (logn_min logn_max : ℕ) (skey : Bytes) (ps : PrecomputedSigner F)
      → new_precomputed_signer_inner lib logn_min logn_max skey ≡ ok ps
      → (read : Result Bytes) (m : Message) (fuel : ℕ)
      → sign_with lib (some ps) read m fuel ≡ sign_inner lib logn_min logn_max read skey m fuel
  sign_with-eq-sign_inner logn_min logn_max skey ps =
      (new_precomputed_signer-SignsAs logn_min logn_max skey).at ps
