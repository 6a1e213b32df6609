-- ===== src/Pqc/Mldsa.antt =====
-- backend/pkg/jwt/mldsa.go and mldsa_utils.go. The cases of a switch differ in the parameter set
-- only.
use Prim.Native.String
use tasktify.Prelude.{
  String, Option, none, some, List, [], ◌∷◌, Result, ok, err, plain, ◌>>=◌, or_error, lookup, guard,
}
use tasktify.External.Jwt.{Bytes}
use tasktify.External.Circl.{
  MldsaSet, mldsa44, mldsa65, mldsa87, AnyKey, mldsa_public, mldsa_private, CirclLib,
}

abbrev pub mldsa_sets : List (String × MldsaSet)
mldsa_sets = ("ML-DSA-44", mldsa44) ∷ ("ML-DSA-65", mldsa65) ∷ ("ML-DSA-87", mldsa87) ∷ []

-- The case of `switch m.Name` and of `switch alg`.
unfoldable pub mldsa_set_of : String → Option MldsaSet
unfolding lookup
mldsa_set_of name = lookup name mldsa_sets

unfoldable pub same_set : {A : Type 0} → MldsaSet → MldsaSet → A → Option A
same_set mldsa44 mldsa44 a = some a
same_set mldsa65 mldsa65 a = some a
same_set mldsa87 mldsa87 a = some a
same_set mldsa44 mldsa65 a = none
same_set mldsa44 mldsa87 a = none
same_set mldsa65 mldsa44 a = none
same_set mldsa65 mldsa87 a = none
same_set mldsa87 mldsa44 a = none
same_set mldsa87 mldsa65 a = none

-- A value, or the error where there is none.
unfoldable pub or_fail : {A : Type 0} → String → Option A → Result A
or_fail message none = err (plain message)
or_fail message (some a) = ok a

-- The type of a key in an error.
abbrev pub type_of : MldsaSet → String → String
type_of mldsa44 kind = String.◌++◌ "*mldsa44." kind
type_of mldsa65 kind = String.◌++◌ "*mldsa65." kind
type_of mldsa87 kind = String.◌++◌ "*mldsa87." kind

abbrev pub expects : String → MldsaSet → String → String → String
expects name set call kind =
    String.◌++◌ name (String.◌++◌ call (String.◌++◌ " expects " (type_of set kind)))

module _ {K : Type 0} where
  -- key.(*mldsa44.PublicKey), and so on
  unfoldable pub as_public : MldsaSet → AnyKey K → Option K
  unfolding same_set
  as_public set (mldsa_public its_set key) = same_set set its_set key
  as_public set _ = none

  unfoldable pub as_private : MldsaSet → AnyKey K → Option K
  unfolding same_set
  as_private set (mldsa_private its_set key) = same_set set its_set key
  as_private set _ = none

  module _ (lib : CirclLib K) where
    unfoldable pub verify : String → Bytes → Bytes → AnyKey K → Result (Unit {0})
    unfolding mldsa_set_of as_public or_fail
    verify name signing_string sig key = do
      set ← or_fail "unsupported signing method" (mldsa_set_of name)
      pk ← or_fail (expects name set " verify" "PublicKey") (as_public set key)
      guard (lib.mldsa_verify set pk signing_string sig) (plain (String.◌++◌ name " verify failed"))

    unfoldable pub sign : String → Bytes → AnyKey K → Result Bytes
    unfolding mldsa_set_of as_private or_fail
    sign name signing_string key = do
      set ← or_fail "unsupported signing method" (mldsa_set_of name)
      sk ← or_fail (expects name set " sign" "PrivateKey") (as_private set key)
      or_error (plain (String.◌++◌ name " sign failed")) (lib.mldsa_sign_to set sk signing_string)

    unfoldable pub parse_private_key_from_pem : String → Bytes → Result (AnyKey K)
    unfolding mldsa_set_of as_private or_fail
    parse_private_key_from_pem alg key = do
      block ← or_fail "key must be PEM encoded" (lib.pem_decode key)
      set ← or_fail "invalid key type" (mldsa_set_of alg)
      parsed ←
          or_error (plain "key is not a valid ML-DSA private key")
            (lib.mldsa_unmarshal_private set block)
      sk ← or_fail "key is not a valid ML-DSA private key" (as_private set parsed)
      ok (mldsa_private set sk)

    unfoldable pub parse_public_key_from_pem : String → Bytes → Result (AnyKey K)
    unfolding mldsa_set_of as_public or_fail
    parse_public_key_from_pem alg key = do
      block ← or_fail "key must be PEM encoded" (lib.pem_decode key)
      set ← or_fail "invalid key type" (mldsa_set_of alg)
      parsed ←
          or_error (plain "key is not a valid ML-DSA public key")
            (lib.mldsa_unmarshal_public set block)
      pk ← or_fail "key is not a valid ML-DSA public key" (as_public set parsed)
      ok (mldsa_public set pk)
