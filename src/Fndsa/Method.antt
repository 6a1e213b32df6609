-- ===== src/Fndsa/Method.antt =====
-- backend/pkg/jwt/fndsa_original.go and fndsa_precomputed.go: the signing methods of tokens. `read`
-- is what the random source gives for a seed, `fuel` the number of rounds that the loop of signing
-- may take.
use tasktify.Prelude.{
  ℕ, String, ◌/◌, ◌%◌, ◌&&◌, ◌||◌, Option, none, some, [], Result, ok, err, plain, ◌>>=◌, ◌>>◌,
  Bool, false, guard, or_error, ◌==◌, str_eq, if◌then◌else◌,
}
use tasktify.External.Jwt.{Bytes}
use tasktify.External.Fndsa.{FndsaLib}
use tasktify.Fndsa.Core.{Message, sign}
use tasktify.Fndsa.Signer.{PrecomputedSigner, new_precomputed_signer, sign_with, log_n}
use tasktify.Fndsa.Keys.{head_of}

-- A key of any type: nil, []byte, *fndsa.PrecomputedSigner, or another.
pub data MethodKey (F : Type 0) : Type 0 where
  nil_key other_key : MethodKey F
  bytes : Bytes → MethodKey F
  signer : Option (PrecomputedSigner F) → MethodKey F

pub record PrecomputedMethod (F : Type 0) : Type 0 where
  pub name : String
  pub cached : Option (PrecomputedSigner F)

-- DOMAIN_NONE, and SHA3_256 as the pre-hash function, whose crypto.Hash is 11.
abbrev pub sha3_256 : ℕ
sha3_256 = 11

abbrev pub token_message : Bytes → Message
token_message signing_string = record { ctx = []; id = sha3_256; content = signing_string }

unfoldable pub expected_log_n : String → Result ℕ
expected_log_n name =
    if str_eq name "FN-DSA-512" || str_eq name "FN-DSA-Precomputed-512"
    then ok 9
    else if str_eq name "FN-DSA-1024" || str_eq name "FN-DSA-Precomputed-1024"
    then ok 10
    else err (plain "unsupported FN-DSA precomputed algorithm")

-- key[0] & 0xF0 is 0, and key[0] & 0x0F is the degree.
unfoldable pub has_head : ℕ → Bytes → Bool
unfolding head_of
has_head logn key = elim (head_of key) [
  | none ↦ false
  | some h ↦ h / 16 % 16 == 0 && h % 16 == logn
]

module _ {F Prng : Type 0} (lib : FndsaLib F Prng) where
  -- SigningMethodFNDSA
  unfoldable pub original_sign : Result Bytes → Bytes → MethodKey F → ℕ → Result (Option Bytes)
  original_sign read signing_string (bytes key) fuel =
      or_error (plain "oqs/FN-DSA: signing error")
        (sign lib read key (token_message signing_string) fuel)
  original_sign read signing_string nil_key fuel = err (plain "FN-DSA sign expects []byte")
  original_sign read signing_string other_key fuel = err (plain "FN-DSA sign expects []byte")
  original_sign read signing_string (signer _) fuel = err (plain "FN-DSA sign expects []byte")

  unfoldable pub original_verify : Bytes → Bytes → MethodKey F → Result (Unit {0})
  original_verify signing_string sig (bytes key) =
      guard (lib.verify key [] sha3_256 signing_string sig) (plain "oqs/FN-DSA: verification error")
  original_verify signing_string sig nil_key = err (plain "FN-DSA verify expects []byte")
  original_verify signing_string sig other_key = err (plain "FN-DSA verify expects []byte")
  original_verify signing_string sig (signer _) = err (plain "FN-DSA verify expects []byte")

  -- SigningMethodFNDSAPrecomputed
  unfoldable pub validate_signer : PrecomputedMethod F → PrecomputedSigner F → Result (Unit {0})
  unfolding expected_log_n log_n
  validate_signer m ps = do
    logn ← expected_log_n m.name
    guard (log_n (some ps) == logn) (plain "FN-DSA precomputed signer degree does not match")

  -- The switch over the type of the key.
  unfoldable pub find_signer :
      PrecomputedMethod F → MethodKey F → Result (Option (PrecomputedSigner F))
  find_signer m nil_key = ok m.cached
  find_signer m (bytes key) =
      or_error (plain "invalid FN-DSA private key") (new_precomputed_signer lib key) >>= λ ps.
      ok (some ps)
  find_signer m (signer s) = ok s
  find_signer m other_key =
      err (plain "FN-DSA precomputed sign expects []byte or *fndsa.PrecomputedSigner")

  unfoldable pub usable :
      PrecomputedMethod F → Option (PrecomputedSigner F) → Result (PrecomputedSigner F)
  unfolding validate_signer
  usable m none = err (plain "precomputed signer not set for FN-DSA")
  usable m (some ps) = validate_signer m ps >> ok ps

  unfoldable pub signer_for_key : PrecomputedMethod F → MethodKey F → Result (PrecomputedSigner F)
  unfolding find_signer usable
  signer_for_key m key = find_signer m key >>= usable m

  unfoldable pub precomputed_sign :
      PrecomputedMethod F → Result Bytes → Bytes → MethodKey F → ℕ → Result (Option Bytes)
  unfolding signer_for_key
  precomputed_sign m read signing_string key fuel = signer_for_key m key >>= λ ps.
      or_error (plain "oqs/FN-DSA: signing error")
        (sign_with lib (some ps) read (token_message signing_string) fuel)

  unfoldable pub validate_public_key : PrecomputedMethod F → Bytes → Result (Unit {0})
  unfolding expected_log_n has_head
  validate_public_key m key = do
    logn ← expected_log_n m.name
    guard (has_head logn key) (plain "FN-DSA public key does not match")

  unfoldable pub precomputed_verify :
      PrecomputedMethod F → Bytes → Bytes → MethodKey F → Result (Unit {0})
  unfolding validate_public_key
  precomputed_verify m signing_string sig (bytes key) =
      validate_public_key m key
      >> guard (lib.verify key [] sha3_256 signing_string sig)
          (plain "oqs/FN-DSA: verification error")
  precomputed_verify m signing_string sig nil_key = err (plain "FN-DSA verify expects []byte")
  precomputed_verify m signing_string sig other_key = err (plain "FN-DSA verify expects []byte")
  precomputed_verify m signing_string sig (signer _) = err (plain "FN-DSA verify expects []byte")

  -- SetPrecomputedSigner
  unfoldable pub set_precomputed_signer :
      Option (PrecomputedSigner F) → PrecomputedMethod F → PrecomputedMethod F
  set_precomputed_signer s m = record m { cached = s }
