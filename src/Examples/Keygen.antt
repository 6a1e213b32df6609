-- ===== src/Examples/Keygen.antt =====
-- The theorem on the files of keys, with short keys that are written as they are.
use tasktify.Prelude.{◌≡◌, refl, [], ◌∷◌, ◌⊎◌, true, false, ok}
use tasktify.Keygen.{KeygenLib, Files, owner_only, world_readable, keygen}
use tasktify.Keygen.Loads.{ReadsBack, LoadsAll, SignerRefused, keygen-load_all_alg_configs}
use tasktify.Examples.Bootstrap.{sevens}

abbrev short : KeygenLib
short = record {
  make_dir = ok tt;
  fndsa_keygen = ok (1 ∷ [], 2 ∷ []);
  rsa_generate = ok (3 ∷ [], ok (4 ∷ []));
  ecdsa_generate = ok (ok (5 ∷ []), ok (6 ∷ []));
  ed25519_generate = ok (ok (7 ∷ []), ok (8 ∷ []));
  random_secret = ok (9 ∷ []);
  encode_pem = λ pem_type bytes. bytes;
  write_file = λ name. ok tt;
}

abbrev files : Files
files =
    ("FNDSA-512_pk.pem", (2 ∷ [], world_readable))
    ∷ ("FNDSA-512_sk.pem", (1 ∷ [], owner_only))
    ∷ ("RS256_sk.pem", (3 ∷ [], owner_only))
    ∷ ("RS256_pk.pem", (4 ∷ [], world_readable))
    ∷ ("ES256_sk.pem", (5 ∷ [], owner_only))
    ∷ ("ES256_pk.pem", (6 ∷ [], world_readable))
    ∷ ("HS256_secret.pem", (9 ∷ [], owner_only))
    ∷ ("EdDSA_sk.pem", (7 ∷ [], owner_only))
    ∷ ("EdDSA_pk.pem", (8 ∷ [], world_readable))
    ∷ []

generated : keygen short ≡ ok files
unfolding keygen
generated = refl

read_back : ReadsBack short sevens
read_back = record {
  fndsa = λ sk vk e. (_, _, refl, refl);
  rsa = λ sk pk e. (_, _, refl, refl);
  ecdsa = λ sk pk e. (_, _, refl, refl);
  ed25519 = λ sk pk e. (_, _, refl, refl);
  hmac = λ secret e. (_, refl);
}

keygen-load_all_alg_configs_example :
    LoadsAll short sevens read_back files false
    × (LoadsAll short sevens read_back files true ⊎ SignerRefused short sevens read_back files)
keygen-load_all_alg_configs_example =
    keygen-load_all_alg_configs short sevens read_back files generated
