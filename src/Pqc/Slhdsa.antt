-- ===== src/Pqc/Slhdsa.antt =====
-- backend/pkg/jwt/slhdsa.go and slhdsa_utils.go. The cases of a switch differ in the parameter set
-- only; a key carries its own, whatever the method.
use tasktify.Prelude.{
  String, Option, none, some, List, [], ◌∷◌, Result, ok, plain, ◌>>=◌, or_error, lookup, guard,
}
use tasktify.External.Jwt.{Bytes}
use tasktify.External.Circl.{
  SlhdsaSet, sha2_128f, sha2_128s, sha2_192f, sha2_192s, sha2_256f, sha2_256s, shake_128f,
  shake_128s, shake_192f, shake_192s, shake_256f, shake_256s, AnyKey, slhdsa_public, slhdsa_private,
  CirclLib,
}
use tasktify.Pqc.Mldsa.{or_fail}

abbrev pub slhdsa_sets : List (String × SlhdsaSet)
slhdsa_sets =
    ("SLH-DSA-SHA2-128f", sha2_128f)
    ∷ ("SLH-DSA-SHA2-128s", sha2_128s)
    ∷ ("SLH-DSA-SHA2-192f", sha2_192f)
    ∷ ("SLH-DSA-SHA2-192s", sha2_192s)
    ∷ ("SLH-DSA-SHA2-256f", sha2_256f)
    ∷ ("SLH-DSA-SHA2-256s", sha2_256s)
    ∷ ("SLH-DSA-SHAKE-128f", shake_128f)
    ∷ ("SLH-DSA-SHAKE-128s", shake_128s)
    ∷ ("SLH-DSA-SHAKE-192f", shake_192f)
    ∷ ("SLH-DSA-SHAKE-192s", shake_192s)
    ∷ ("SLH-DSA-SHAKE-256f", shake_256f)
    ∷ ("SLH-DSA-SHAKE-256s", shake_256s)
    ∷ []

unfoldable pub slhdsa_set_of : String → Option SlhdsaSet
unfolding lookup
slhdsa_set_of alg = lookup alg slhdsa_sets

module _ {K : Type 0} where
  -- key.(slhdsa.PublicKey)
  unfoldable pub as_public : AnyKey K → Option K
  as_public (slhdsa_public key) = some key
  as_public _ = none

  -- key.(slhdsa.PrivateKey)
  unfoldable pub as_private : AnyKey K → Option K
  as_private (slhdsa_private key) = some key
  as_private _ = none

  module _ (lib : CirclLib K) where
    unfoldable pub verify : Bytes → Bytes → AnyKey K → Result (Unit {0})
    unfolding as_public or_fail
    verify signing_string sig key = do
      pk ← or_fail "SLH-DSA verify expects slhdsa.PublicKey key" (as_public key)
      guard (lib.slhdsa_verify pk signing_string sig) (plain "SLH-DSA verify failed")

    unfoldable pub sign : Bytes → AnyKey K → Result Bytes
    unfolding as_private or_fail
    sign signing_string key = do
      sk ← or_fail "SLH-DSA sign expects slhdsa.PrivateKey key" (as_private key)
      lib.slhdsa_sign_deterministic sk signing_string

    unfoldable pub parse_private_key_from_pem : String → Bytes → Result (AnyKey K)
    unfolding slhdsa_set_of as_private or_fail
    parse_private_key_from_pem alg key = do
      block ← or_fail "key must be PEM encoded" (lib.pem_decode key)
      set ← or_fail "invalid key type" (slhdsa_set_of alg)
      parsed ←
          or_error (plain "key is not a valid SLH-DSA private key")
            (lib.slhdsa_unmarshal_private set block)
      sk ← or_fail "key is not a valid SLH-DSA private key" (as_private parsed)
      ok (slhdsa_private sk)

    unfoldable pub parse_public_key_from_pem : String → Bytes → Result (AnyKey K)
    unfolding slhdsa_set_of as_public or_fail
    parse_public_key_from_pem alg key = do
      block ← or_fail "key must be PEM encoded" (lib.pem_decode key)
      set ← or_fail "invalid key type" (slhdsa_set_of alg)
      parsed ←
          or_error (plain "key is not a valid SLH-DSA public key")
            (lib.slhdsa_unmarshal_public set block)
      pk ← or_fail "key is not a valid SLH-DSA public key" (as_public parsed)
      ok (slhdsa_public pk)
