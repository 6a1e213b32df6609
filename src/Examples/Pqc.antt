-- ===== src/Examples/Pqc.antt =====
-- The theorems on ML-DSA, with numbers for keys; a signature is the key.
use tasktify.Prelude.{
  ℕ, ◌==◌, ==_refl, ◌≡◌, ◌≢◌, refl, String, some, [], ◌∷◌, Bool, true, false, ok, err, plain,
  str_eq, eq_iff, ok-injective,
}
use tasktify.External.Jwt.{Bytes}
use tasktify.External.Circl.{
  mldsa44, mldsa65, mldsa_public, mldsa_private, slhdsa_public, slhdsa_private, CirclLib,
  IsCirclLib,
}
use tasktify.Pqc.Mldsa
use tasktify.Pqc.Mldsa.{
  mldsa_set_of, parse_public_key_from_pem, parse_private_key_from_pem, expects,
}
use tasktify.Pqc.Separation.{parse_public-verify}
use tasktify.Pqc.Pairs.{mldsa_sign-verify}

is_signature : ℕ → Bytes → Bool
is_signature key [] = false
is_signature key (b ∷ _) = b == key

-- Each file has the key 7.
abbrev sevens : CirclLib ℕ
sevens = record {
  pem_decode = λ file. some file;
  mldsa_verify = λ set key message sig. is_signature key sig;
  mldsa_sign_to = λ set key message. ok (key ∷ []);
  slhdsa_verify = λ key message sig. is_signature key sig;
  slhdsa_sign_deterministic = λ key message. ok (key ∷ []);
  mldsa_unmarshal_private = λ set bytes. ok (mldsa_private set 7);
  mldsa_unmarshal_public = λ set bytes. ok (mldsa_public set 7);
  slhdsa_unmarshal_private = λ set bytes. ok (slhdsa_private 7);
  slhdsa_unmarshal_public = λ set bytes. ok (slhdsa_public 7);
}

recognised :
    (sk pk : ℕ) (sig : Bytes) → sk ≡ pk → ok (sk ∷ []) ≡ ok sig → is_signature pk sig ≡ true
unfolding is_signature
recognised sk pk sig same e = rw (← ok-injective e, same) (==_refl pk)

sevens-IsCirclLib : IsCirclLib sevens (λ set sk pk. sk ≡ pk) (λ sk pk. sk ≡ pk)
sevens-IsCirclLib = record {
  mldsa_signed = λ set sk pk message sig pair e. recognised sk pk sig pair e;
  slhdsa_signed = λ sk pk message sig pair e. recognised sk pk sig pair e;
}

public_parsed : parse_public_key_from_pem sevens "ML-DSA-44" (1 ∷ []) ≡ ok (mldsa_public mldsa44 7)
unfolding parse_public_key_from_pem
public_parsed = refl

private_parsed :
    parse_private_key_from_pem sevens "ML-DSA-44" (2 ∷ []) ≡ ok (mldsa_private mldsa44 7)
unfolding parse_private_key_from_pem
private_parsed = refl

signed : Mldsa.sign sevens "ML-DSA-44" (5 ∷ []) (mldsa_private mldsa44 7) ≡ ok (7 ∷ [])
unfolding Mldsa.sign
signed = refl

mldsa_sign-verify_example :
    Mldsa.verify sevens "ML-DSA-44" (5 ∷ []) (7 ∷ []) (mldsa_public mldsa44 7) ≡ ok tt
mldsa_sign-verify_example =
    mldsa_sign-verify sevens sevens-IsCirclLib "ML-DSA-44" (2 ∷ []) (1 ∷ []) (5 ∷ []) (7 ∷ [])
      (mldsa_private mldsa44 7) (mldsa_public mldsa44 7) private_parsed public_parsed (refl, refl)
      signed

abbrev small : String
small = "ML-DSA-44"

abbrev large : String
large = "ML-DSA-65"

apart : small ≢ large
apart e = let told : str_eq small large ≡ true = (eq_iff small large).1 e in absurd (cc told)

large_known : mldsa_set_of large ≡ some mldsa65
unfolding mldsa_set_of
large_known = refl

parse_public-verify_example :
    Mldsa.verify sevens large (5 ∷ []) (7 ∷ []) (mldsa_public mldsa44 7)
    ≡ err (plain (expects large mldsa65 " verify" "PublicKey"))
parse_public-verify_example =
    parse_public-verify sevens large small mldsa65 (1 ∷ []) (5 ∷ []) (7 ∷ [])
      (mldsa_public mldsa44 7) large_known apart public_parsed
