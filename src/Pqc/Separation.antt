-- ===== src/Pqc/Separation.antt =====
-- Proofs: a public key of ML-DSA that is parsed for one algorithm is refused by the methods of the
-- others.
use tasktify.Prelude.{
  ◌≡◌, ◌≢◌, refl, sym, ap, ◌∙◌, String, Option, none, some, Result, ok, err, panic, plain, arith,
  Ensures, Ensures-bind, Ensures-step, Ensures-ok, eq_iff, lookup,
}
use tasktify.External.Jwt.{Bytes}
use tasktify.External.Circl.{
  MldsaSet, mldsa44, mldsa65, mldsa87, AnyKey, mldsa_public, mldsa_private, CirclLib,
}
use tasktify.Pqc.Mldsa.{
  mldsa_set_of, same_set, as_public, or_fail, expects, verify, parse_public_key_from_pem,
  parse_private_key_from_pem,
}

pub or_fail-some :
    {A : Type 0} (message : String) (o : Option A) (a : A) → or_fail message o ≡ ok a → o ≡ some a
unfolding or_fail
or_fail-some message none a e = absurd (cc e)
or_fail-some message (some b) a e =
    ap (λ (r : Result _). elim r [ ok x ↦ some x | err _ ↦ none | panic ↦ none ]) e

name_of : MldsaSet → String
name_of mldsa44 = "ML-DSA-44"
name_of mldsa65 = "ML-DSA-65"
name_of mldsa87 = "ML-DSA-87"

named : (name : String) (set : MldsaSet) → mldsa_set_of name ≡ some set → name ≡ name_of set
unfolding mldsa_set_of lookup name_of
named name mldsa44 e =
    ground (arith, eq_iff "ML-DSA-44" name, eq_iff "ML-DSA-65" name, eq_iff "ML-DSA-87" name)
named name mldsa65 e =
    ground (arith, eq_iff "ML-DSA-44" name, eq_iff "ML-DSA-65" name, eq_iff "ML-DSA-87" name)
named name mldsa87 e =
    ground (arith, eq_iff "ML-DSA-44" name, eq_iff "ML-DSA-65" name, eq_iff "ML-DSA-87" name)

pub same_set-none : {A : Type 0} (s t : MldsaSet) (a : A) → s ≢ t → same_set s t a ≡ none
unfolding same_set
same_set-none mldsa44 mldsa44 a n = absurd (n refl)
same_set-none mldsa65 mldsa65 a n = absurd (n refl)
same_set-none mldsa87 mldsa87 a n = absurd (n refl)
same_set-none mldsa44 mldsa65 a n = refl
same_set-none mldsa44 mldsa87 a n = refl
same_set-none mldsa65 mldsa44 a n = refl
same_set-none mldsa65 mldsa87 a n = refl
same_set-none mldsa87 mldsa44 a n = refl
same_set-none mldsa87 mldsa65 a n = refl

pub same_set-some : {A : Type 0} (s : MldsaSet) (a : A) → same_set s s a ≡ some a
unfolding same_set
same_set-some mldsa44 a = refl
same_set-some mldsa65 a = refl
same_set-some mldsa87 a = refl

module _ {K : Type 0} (lib : CirclLib K) where
  -- A parsed key has the type that its algorithm names.
  pub parse_public-Ensures :
      (alg : String) (pem : Bytes)
      → Ensures
          (λ (key : AnyKey K).
            (set : MldsaSet) × (k : K) × (mldsa_set_of alg ≡ some set) × (key ≡ mldsa_public set k))
          (parse_public_key_from_pem lib alg pem)
  unfolding parse_public_key_from_pem
  parse_public-Ensures alg pem = Ensures-bind (or_fail _ (lib.pem_decode pem)) _ λ block _.
      Ensures-bind (or_fail _ (mldsa_set_of alg)) _ λ set is.
        Ensures-step _ (lib.mldsa_unmarshal_public set block) _ λ parsed _.
          Ensures-bind (or_fail _ (as_public set parsed)) _
            λ pk _. Ensures-ok _ (set, pk, or_fail-some _ _ set is, refl)

  pub parse_private-Ensures :
      (alg : String) (pem : Bytes)
      → Ensures
          (λ (key : AnyKey K).
            (set : MldsaSet) × (k : K) × (mldsa_set_of alg ≡ some set)
            × (key ≡ mldsa_private set k))
          (parse_private_key_from_pem lib alg pem)
  unfolding parse_private_key_from_pem
  parse_private-Ensures alg pem = Ensures-bind (or_fail _ (lib.pem_decode pem)) _ λ block _.
      Ensures-bind (or_fail _ (mldsa_set_of alg)) _ λ set is.
        Ensures-step _ (lib.mldsa_unmarshal_private set block) _ λ parsed _.
          Ensures-bind (or_fail _ _) _ λ sk _. Ensures-ok _ (set, sk, or_fail-some _ _ set is, refl)

  -- Verify of an ML-DSA method refuses, whatever the signature, a public key that was parsed for an
  -- algorithm of another name, with the error that names the type it expects.
  pub parse_public-verify :
      (name alg : String) (set : MldsaSet) (pem signing_string sig : Bytes) (key : AnyKey K)
      → mldsa_set_of name ≡ some set
      → alg ≢ name
      → parse_public_key_from_pem lib alg pem ≡ ok key
      → verify lib name signing_string sig key
        ≡ err (plain (expects name set " verify" "PublicKey"))
  unfolding verify as_public or_fail
  parse_public-verify name alg set pem signing_string sig key supported other parsed =
      let (its_set, k, its_name, is) = (parse_public-Ensures alg pem).at key parsed in
      let apart : set ≢ its_set = λ e.
        other (named alg its_set its_name ∙ sym (named name its_set (supported ∙ ap some e))) in
      rw (supported, is, same_set-none set its_set k apart) refl
