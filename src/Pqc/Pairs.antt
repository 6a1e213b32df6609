-- ===== src/Pqc/Pairs.antt =====
-- Proofs: what the methods of ML-DSA and SLH-DSA sign with a key of a PEM file verifies with its
-- pair.
use tasktify.Prelude.{◌≡◌, refl, String, some, ok, Ensures, Ensures-last}
use tasktify.External.Jwt.{Bytes}
use tasktify.External.Circl.{
  MldsaSet, AnyKey, mldsa_public, mldsa_private, slhdsa_public, slhdsa_private, CirclLib,
  IsCirclLib,
}
use tasktify.Pqc.Mldsa
use tasktify.Pqc.Mldsa.{
  mldsa_set_of, as_public, as_private, or_fail, parse_private_key_from_pem,
  parse_public_key_from_pem,
}
use tasktify.Pqc.Slhdsa
use tasktify.Pqc.Separation.{same_set-some, parse_public-Ensures, parse_private-Ensures}

module _ {K : Type 0} (lib : CirclLib K) {MldsaPair : MldsaSet → K → K → Type 0}
    {SlhdsaPair : K → K → Type 0} (circl : IsCirclLib lib MldsaPair SlhdsaPair) where
  -- The private and the public key are of one parameter set, and belong together.
  abbrev pub ArePair : AnyKey K → AnyKey K → Type 0
  ArePair (mldsa_private s sk) (mldsa_public t pk) = (s ≡ t) × MldsaPair s sk pk
  ArePair (slhdsa_private sk) (slhdsa_public pk) = SlhdsaPair sk pk
  ArePair _ _ = ⊥

  mldsa_sign-Ensures :
      (name : String) (set : MldsaSet) (sk : K) (signing_string : Bytes)
      → mldsa_set_of name ≡ some set
      → Ensures
          (λ sig. lib.mldsa_sign_to set sk signing_string ≡ ok sig)
          (Mldsa.sign lib name signing_string (mldsa_private set sk))
  unfolding Mldsa.sign as_private or_fail
  mldsa_sign-Ensures name set sk signing_string is =
      rw (is, same_set-some set sk)
        (Ensures-last _ (lib.mldsa_sign_to set sk signing_string) λ sig e. e)

  -- With circl as documented: where a private and a public key are parsed from PEM files for the
  -- name of an ML-DSA method and belong together, Verify of the method accepts what its Sign has
  -- signed.
  pub mldsa_sign-verify :
      (name : String) (private_pem public_pem signing_string sig : Bytes) (sk pk : AnyKey K)
      → parse_private_key_from_pem lib name private_pem ≡ ok sk
      → parse_public_key_from_pem lib name public_pem ≡ ok pk
      → ArePair sk pk
      → Mldsa.sign lib name signing_string sk ≡ ok sig
      → Mldsa.verify lib name signing_string sig pk ≡ ok tt
  unfolding Mldsa.verify as_public or_fail
  mldsa_sign-verify name private_pem public_pem signing_string sig sk pk parsed_sk parsed_pk pair
        signed =
      let (s, a, s_name, sk_is) = (parse_private-Ensures lib name private_pem).at sk parsed_sk in
      let (t, b, t_name, pk_is) = (parse_public-Ensures lib name public_pem).at pk parsed_pk in
      let (same, pairs) = rw (sk_is, pk_is) at pair in
      let made = (mldsa_sign-Ensures name s a signing_string s_name).at sig (rw sk_is at signed) in
      let valid = circl.mldsa_signed s a b signing_string sig pairs made in
      rw (pk_is, ← same, s_name, same_set-some s b, valid) refl

  -- With circl as documented: what Sign of the SLH-DSA methods has signed with one key of a pair,
  -- Verify accepts with the other.
  pub slhdsa_sign-verify :
      (signing_string sig : Bytes) (sk pk : K)
      → SlhdsaPair sk pk
      → Slhdsa.sign lib signing_string (slhdsa_private sk) ≡ ok sig
      → Slhdsa.verify lib signing_string sig (slhdsa_public pk) ≡ ok tt
  unfolding Slhdsa.sign Slhdsa.verify Slhdsa.as_private Slhdsa.as_public or_fail
  slhdsa_sign-verify signing_string sig sk pk pair signed =
      rw (circl.slhdsa_signed sk pk signing_string sig pair signed) refl
