-- ===== src/Examples/Loader.antt =====
-- The theorem on backend/pkg/utils/jwtutils/loader.go at a directory with every file.
use tasktify.Prelude.{
  Option, ◌↔◌, ◌∷◌, In, inl, inr, ℕ, ◌≡◌, refl, String, none, some, [], Result, ok, true, false,
}
use tasktify.External.Jwt.{SigningMethod, Bytes}
use tasktify.Jwt.Claims.{header_alg_for_config_alg}
use tasktify.Jwt.Multi.{AlgConfig, Configs, key_for}
use tasktify.Jwt.Loader.Methods.{HasNames}
use tasktify.Jwt.Loader.Loaded.{key_for-load_all_alg_configs}
use tasktify.Jwt.Loader.{KeyLib, load_alg_config, load_all_alg_configs}
use tasktify.Jwt.Loader.Agreement.{verify_key_in, load_alg_config-key}

abbrev pub named : String → SigningMethod ℕ
named alg = record { alg = alg; sign = λ text key. ok [] }

abbrev pub some_keys : KeyLib ℕ
some_keys = record {
  fn512 = named "FN-DSA-512";
  precomputed = λ signer. named "FN-DSA-512";
  mldsa44 = named "ML-DSA-44";
  mldsa65 = named "ML-DSA-65";
  mldsa87 = named "ML-DSA-87";
  slhdsa_sha2_128f = named "SLH-DSA-SHA2-128f";
  slhdsa_sha2_128s = named "SLH-DSA-SHA2-128s";
  slhdsa_shake_128f = named "SLH-DSA-SHAKE-128f";
  slhdsa_shake_128s = named "SLH-DSA-SHAKE-128s";
  es256 = named "ES256";
  rs256 = named "RS256";
  hs256 = named "HS256";
  eddsa = named "EdDSA";
  fndsa_public = λ bytes. ok 7;
  fndsa_private = λ bytes. ok 5;
  new_signer = λ key. ok key;
  mldsa_public = λ alg bytes. ok 8;
  mldsa_private = λ alg bytes. ok 6;
  slhdsa_public = λ alg bytes. ok 9;
  slhdsa_private = λ alg bytes. ok 4;
  ec_public = λ bytes. ok 10;
  ec_private = λ bytes. ok 3;
  rsa_public = λ bytes. ok 11;
  rsa_private = λ bytes. ok 2;
  ed_public = λ bytes. ok 12;
  ed_private = λ bytes. ok 1;
}

abbrev keys_dir : String → Result Bytes
keys_dir name = ok []

abbrev precomputed_for_signing : AlgConfig ℕ
precomputed_for_signing = record {
  method = some (named "FN-DSA-512");
  sign_key = none;
  verify_key = some 7;
}

loaded :
    load_alg_config some_keys keys_dir "FN-DSA-Precomputed-512" true ≡ ok precomputed_for_signing
unfolding load_alg_config
loaded = refl

load_alg_config-key_example :
    verify_key_in some_keys keys_dir (
      load_alg_config some_keys keys_dir (header_alg_for_config_alg "FN-DSA-Precomputed-512") false)
    ≡ ok (some 7)
load_alg_config-key_example =
    load_alg_config-key some_keys keys_dir "FN-DSA-Precomputed-512" true precomputed_for_signing
      loaded

some_keys-HasNames : HasNames some_keys
some_keys-HasNames = record {
  fn512 = refl;
  precomputed = λ signer. refl;
  mldsa44 = refl;
  mldsa65 = refl;
  mldsa87 = refl;
  slhdsa_sha2_128f = refl;
  slhdsa_sha2_128s = refl;
  slhdsa_shake_128f = refl;
  slhdsa_shake_128s = refl;
  es256 = refl;
  rs256 = refl;
  hs256 = refl;
  eddsa = refl;
}

abbrev es256_config : AlgConfig ℕ
es256_config = record { method = some (named "ES256"); sign_key = some 3; verify_key = some 10 }

abbrev two_configs : Configs ℕ
two_configs =
    ("FN-DSA-Precomputed-512", some precomputed_for_signing) ∷ ("ES256", some es256_config) ∷ []

abbrev other_visit : Configs ℕ
other_visit =
    ("ES256", some es256_config) ∷ ("FN-DSA-Precomputed-512", some precomputed_for_signing) ∷ []

both_loaded :
    load_all_alg_configs some_keys keys_dir ("FN-DSA-Precomputed-512" ∷ "ES256" ∷ []) true
    ≡ ok two_configs
unfolding load_all_alg_configs
both_loaded = refl

same_entries : (e : String × Option (AlgConfig ℕ)) → In e two_configs ↔ In e other_visit
same_entries e = (swap _ _ e, swap _ _ e)
  where
    swap : (x y e : String × Option (AlgConfig ℕ)) → In e (x ∷ y ∷ []) → In e (y ∷ x ∷ [])
    swap x y e (inl a) = inr (inl a)
    swap x y e (inr (inl b)) = inl b
    swap x y e (inr (inr n)) = elim n [ ]

key_for-load_all_alg_configs_example :
    key_for other_visit (header_alg_for_config_alg "FN-DSA-Precomputed-512") ≡ ok (some 7)
key_for-load_all_alg_configs_example =
    key_for-load_all_alg_configs some_keys keys_dir true some_keys-HasNames
      ("FN-DSA-Precomputed-512" ∷ "ES256" ∷ []) two_configs other_visit "FN-DSA-Precomputed-512"
      precomputed_for_signing both_loaded (inl refl) same_entries
