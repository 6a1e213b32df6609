-- ===== src/Jwt/Loader.antt =====
-- backend/pkg/utils/jwtutils/loader.go: configurations of algorithms from PEM files. The keys
-- directory is the function that reads a file of it by name. A message is kept without the values
-- that are formatted into it.
pub mod Agreement
pub mod Methods
pub mod Loaded
pub mod Entries
use tasktify.Prelude.{
  ℕ, String, Option, none, some, List, [], ◌∷◌, Bool, true, false, Result, ok, err, panic, plain,
  ◌>>=◌, or_error, str_eq, if◌then◌else◌, ◌||◌, insert, lookup,
}
use Prim.Native.String
use tasktify.External.Jwt.{SigningMethod, Bytes}
use tasktify.Jwt.Multi.{AlgConfig, Configs}

-- What the loader takes from backend/pkg/jwt and backend/pkg/fndsa: the methods and the parsers of
-- PEM files.
pub record KeyLib (Key : Type 0) : Type 0 where
  pub fn512 : SigningMethod Key
  -- &SigningMethodFNDSAPrecomputed{Name: AlgFNDSA512}, after SetPrecomputedSigner if there is a
  -- signer
  pub precomputed : Option Key → SigningMethod Key
  pub mldsa44 : SigningMethod Key
  pub mldsa65 : SigningMethod Key
  pub mldsa87 : SigningMethod Key
  pub slhdsa_sha2_128f : SigningMethod Key
  pub slhdsa_sha2_128s : SigningMethod Key
  pub slhdsa_shake_128f : SigningMethod Key
  pub slhdsa_shake_128s : SigningMethod Key
  pub es256 : SigningMethod Key
  pub rs256 : SigningMethod Key
  pub hs256 : SigningMethod Key
  pub eddsa : SigningMethod Key
  pub fndsa_public : Bytes → Result Key
  pub fndsa_private : Bytes → Result Key
  -- fndsa.NewPrecomputedSigner
  pub new_signer : Key → Result Key
  pub mldsa_public : String → Bytes → Result Key
  pub mldsa_private : String → Bytes → Result Key
  pub slhdsa_public : String → Bytes → Result Key
  pub slhdsa_private : String → Bytes → Result Key
  pub ec_public : Bytes → Result Key
  pub ec_private : Bytes → Result Key
  pub rsa_public : Bytes → Result Key
  pub rsa_private : Bytes → Result Key
  pub ed_public : Bytes → Result Key
  pub ed_private : Bytes → Result Key

module _ {Key : Type 0} (k : KeyLib Key) (dir : String → Result Bytes) where
  unfoldable pub read_file : String → Result Bytes
  read_file name = or_error (plain "read") (dir name)

  -- The part that the loaders share: read the public key, and in sign mode the private key.
  unfoldable pub load_pair :
      SigningMethod Key
      → String
      → (Bytes → Result Key)
      → String
      → (Bytes → Result Key)
      → Bool
      → Result (AlgConfig Key)
  unfolding read_file
  load_pair method pk parse_pk sk parse_sk sign_mode = do
    vk_bytes ← read_file pk
    vk ← parse_pk vk_bytes
    if sign_mode
        then (do
          sk_bytes ← read_file sk
          key ← parse_sk sk_bytes
          ok (record { method = some method; sign_key = some key; verify_key = some vk }))
        else ok (record { method = some method; sign_key = none; verify_key = some vk })

  unfoldable pub load_fndsa_original : Bool → Result (AlgConfig Key)
  unfolding load_pair
  load_fndsa_original =
      load_pair k.fn512 "FNDSA-512_pk.pem" k.fndsa_public "FNDSA-512_sk.pem" k.fndsa_private

  -- The signer is put into the method, and the sign key stays nil.
  unfoldable pub load_fndsa_precomputed : Bool → Result (AlgConfig Key)
  unfolding read_file
  load_fndsa_precomputed sign_mode = do
    vk_bytes ← read_file "FNDSA-512_pk.pem"
    vk ← k.fndsa_public vk_bytes
    if sign_mode
        then (do
          sk_bytes ← read_file "FNDSA-512_sk.pem"
          sk ← k.fndsa_private sk_bytes
          signer ← or_error (plain "precomputed signer") (k.new_signer sk)
          ok (record {
            method = some (k.precomputed (some signer));
            sign_key = none;
            verify_key = some vk;
          }))
        else ok
            (record { method = some (k.precomputed none); sign_key = none; verify_key = some vk })

  -- The switch of loadMLDSA, which leaves the method nil at other names.
  unfoldable pub mldsa_method : String → Option (SigningMethod Key)
  mldsa_method alg =
      if str_eq alg "ML-DSA-44"
      then some k.mldsa44
      else if str_eq alg "ML-DSA-65"
      then some k.mldsa65
      else if str_eq alg "ML-DSA-87"
      then some k.mldsa87
      else none

  unfoldable pub load_mldsa : String → Bool → Result (AlgConfig Key)
  unfolding read_file mldsa_method
  load_mldsa alg sign_mode = do
    vk_bytes ← read_file (String.◌++◌ alg "_pk.pem")
    vk ← k.mldsa_public alg vk_bytes
    if sign_mode
        then (do
          sk_bytes ← read_file (String.◌++◌ alg "_sk.pem")
          sk ← k.mldsa_private alg sk_bytes
          ok (record { method = mldsa_method alg; sign_key = some sk; verify_key = some vk }))
        else ok (record { method = mldsa_method alg; sign_key = none; verify_key = some vk })

  unfoldable pub slhdsa_method : String → Result (SigningMethod Key)
  slhdsa_method alg =
      if str_eq alg "SLH-DSA-SHA2-128f"
      then ok k.slhdsa_sha2_128f
      else if str_eq alg "SLH-DSA-SHA2-128s"
      then ok k.slhdsa_sha2_128s
      else if str_eq alg "SLH-DSA-SHAKE-128f"
      then ok k.slhdsa_shake_128f
      else if str_eq alg "SLH-DSA-SHAKE-128s"
      then ok k.slhdsa_shake_128s
      else err (plain "unsupported SLH-DSA variant")

  unfoldable pub load_slhdsa : String → Bool → Result (AlgConfig Key)
  unfolding load_pair slhdsa_method
  load_slhdsa alg sign_mode = slhdsa_method alg >>= λ method.
      load_pair method (String.◌++◌ alg "_pk.pem") (k.slhdsa_public alg) (String.◌++◌ alg "_sk.pem")
        (k.slhdsa_private alg) sign_mode

  unfoldable pub load_ecdsa : Bool → Result (AlgConfig Key)
  unfolding load_pair
  load_ecdsa = load_pair k.es256 "ES256_pk.pem" k.ec_public "ES256_sk.pem" k.ec_private

  unfoldable pub load_rsa : Bool → Result (AlgConfig Key)
  unfolding load_pair
  load_rsa = load_pair k.rs256 "RS256_pk.pem" k.rsa_public "RS256_sk.pem" k.rsa_private

  -- The secret is read as an FN-DSA private key would be, and is the verification key too.
  unfoldable pub load_hmac : Bool → Result (AlgConfig Key)
  unfolding read_file
  load_hmac sign_mode = do
    secret_bytes ← read_file "HS256_secret.pem"
    secret ← k.fndsa_private secret_bytes
    ok (record {
      method = some k.hs256;
      sign_key = if sign_mode then some secret else none;
      verify_key = some secret;
    })

  unfoldable pub load_eddsa : Bool → Result (AlgConfig Key)
  unfolding load_pair
  load_eddsa = load_pair k.eddsa "EdDSA_pk.pem" k.ed_public "EdDSA_sk.pem" k.ed_private

-- The branches of the switch of LoadAlgConfig.
pub data Family : Type 0 where
  fndsa_original fndsa_precomputed mldsa slhdsa ecdsa rsa hmac eddsa : Family

-- The cases of that switch, in order.
abbrev pub families : List (String × Family)
families =
    ("FN-DSA-512", fndsa_original)
    ∷ ("Falcon-512", fndsa_original)
    ∷ ("FN-DSA-Precomputed-512", fndsa_precomputed)
    ∷ ("Falcon-Precomputed-512", fndsa_precomputed)
    ∷ ("ML-DSA-44", mldsa)
    ∷ ("ML-DSA-65", mldsa)
    ∷ ("ML-DSA-87", mldsa)
    ∷ ("SLH-DSA-SHA2-128f", slhdsa)
    ∷ ("SLH-DSA-SHA2-128s", slhdsa)
    ∷ ("SLH-DSA-SHAKE-128f", slhdsa)
    ∷ ("SLH-DSA-SHAKE-128s", slhdsa)
    ∷ ("ES256", ecdsa)
    ∷ ("RS256", rsa)
    ∷ ("HS256", hmac)
    ∷ ("EdDSA", eddsa)
    ∷ []

unfoldable pub family_of : String → Option Family
unfolding lookup
family_of alg = lookup alg families

module _ {Key : Type 0} (k : KeyLib Key) (dir : String → Result Bytes) where
  unfoldable pub load_family : Family → String → Bool → Result (AlgConfig Key)
  unfolding load_fndsa_original load_fndsa_precomputed load_mldsa load_slhdsa load_ecdsa load_rsa
      load_hmac load_eddsa
  load_family fndsa_original alg = load_fndsa_original k dir
  load_family fndsa_precomputed alg = load_fndsa_precomputed k dir
  load_family mldsa alg = load_mldsa k dir alg
  load_family slhdsa alg = load_slhdsa k dir alg
  load_family ecdsa alg = load_ecdsa k dir
  load_family rsa alg = load_rsa k dir
  load_family hmac alg = load_hmac k dir
  load_family eddsa alg = load_eddsa k dir

  unfoldable pub load_found : Option Family → String → Bool → Result (AlgConfig Key)
  unfolding load_family
  load_found none alg sign_mode = err (plain "unsupported algorithm")
  load_found (some family) alg sign_mode = load_family family alg sign_mode

  unfoldable pub load_alg_config : String → Bool → Result (AlgConfig Key)
  unfolding load_found family_of
  load_alg_config alg sign_mode = load_found (family_of alg) alg sign_mode

  -- The loop of LoadAllAlgConfigs, with the map that it has filled so far.
  unfoldable pub load_from : Configs Key → List String → Bool → Result (Configs Key)
  unfolding load_alg_config insert
  load_from configs [] sign_mode = ok configs
  load_from configs (alg ∷ algs) sign_mode =
      or_error (plain "loading") (load_alg_config alg sign_mode) >>= λ cfg.
      load_from (insert alg (some cfg) configs) algs sign_mode

  unfoldable pub load_all_alg_configs : List String → Bool → Result (Configs Key)
  unfolding load_from
  load_all_alg_configs algs sign_mode = load_from [] algs sign_mode
