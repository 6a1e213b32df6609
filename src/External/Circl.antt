-- ===== src/External/Circl.antt =====
-- github.com/cloudflare/circl/sign: ML-DSA and SLH-DSA as parameters, and encoding/pem's Decode. A
-- key of any type is one of the five types that the two packages have, with its parameter set, or
-- another.
use tasktify.Prelude.{Option, Bool, true, Result, ok, ◌≡◌}
use tasktify.External.Jwt.{Bytes}

pub data MldsaSet : Type 0 where
  mldsa44 mldsa65 mldsa87 : MldsaSet

pub data SlhdsaSet : Type 0 where
  sha2_128f sha2_128s sha2_192f sha2_192s sha2_256f sha2_256s : SlhdsaSet
  shake_128f shake_128s shake_192f shake_192s shake_256f shake_256s : SlhdsaSet

-- A value of the type any; `K` is what a key is inside. A pointer to a key is not nil.
pub data AnyKey (K : Type 0) : Type 0 where
  mldsa_public mldsa_private : MldsaSet → K → AnyKey K
  slhdsa_public slhdsa_private : K → AnyKey K
  other_key : AnyKey K

pub record CirclLib (K : Type 0) : Type 0 where
  -- the bytes of the first block
  pub pem_decode : Bytes → Option Bytes
  pub mldsa_verify : MldsaSet → K → Bytes → Bytes → Bool
  pub mldsa_sign_to : MldsaSet → K → Bytes → Result Bytes
  pub slhdsa_verify : K → Bytes → Bytes → Bool
  pub slhdsa_sign_deterministic : K → Bytes → Result Bytes
  -- Scheme().UnmarshalBinaryPrivateKey and UnmarshalBinaryPublicKey
  pub mldsa_unmarshal_private : MldsaSet → Bytes → Result (AnyKey K)
  pub mldsa_unmarshal_public : MldsaSet → Bytes → Result (AnyKey K)
  pub slhdsa_unmarshal_private : SlhdsaSet → Bytes → Result (AnyKey K)
  pub slhdsa_unmarshal_public : SlhdsaSet → Bytes → Result (AnyKey K)

-- What is signed with one key of a pair verifies with the other.
pub record IsCirclLib {K : Type 0} (lib : CirclLib K) (MldsaPair : MldsaSet → K → K → Type 0)
    (SlhdsaPair : K → K → Type 0) : Type 0 where
  pub mldsa_signed :
      (set : MldsaSet) (sk pk : K) (message sig : Bytes)
      → MldsaPair set sk pk
      → lib.mldsa_sign_to set sk message ≡ ok sig
      → lib.mldsa_verify set pk message sig ≡ true
  pub slhdsa_signed :
      (sk pk : K) (message sig : Bytes)
      → SlhdsaPair sk pk
      → lib.slhdsa_sign_deterministic sk message ≡ ok sig
      → lib.slhdsa_verify pk message sig ≡ true
