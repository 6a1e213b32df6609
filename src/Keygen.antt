-- ===== src/Keygen.antt =====
-- backend/cmd/keygen/main.go: the files of keys that it writes into a directory. What generates,
-- encodes and writes them is given; a call of fatal, which ends the process, is an error.
pub mod Loads
use Prim.Native.String
use tasktify.Prelude.{
  ℕ, String, Option, none, some, List, [], ◌∷◌, Result, ok, err, plain, ◌>>=◌, ◌>>◌, or_error,
  insert, lookup,
}
use tasktify.External.Jwt.{Bytes}

-- The calls of Go's crypto packages, of fndsa.KeyGen and of os. A marshalling that may fail is a
-- result of its own.
pub record KeygenLib : Type 0 where
  -- MkdirAll of the directory
  pub make_dir : Result (Unit {0})
  -- the signing key and the verifying key
  pub fndsa_keygen : Result (Bytes × Bytes)
  -- the private key and the public key
  pub rsa_generate : Result (Bytes × Result Bytes)
  pub ecdsa_generate : Result (Result Bytes × Result Bytes)
  pub ed25519_generate : Result (Result Bytes × Result Bytes)
  pub random_secret : Result Bytes
  -- pem.EncodeToMemory of a block with a type
  pub encode_pem : String → Bytes → Bytes
  -- whether os.WriteFile can write a file of the directory
  pub write_file : String → Result (Unit {0})

-- The files of the directory, with their mode.
abbrev pub Files : Type 0
Files = List (String × (Bytes × ℕ))

abbrev pub owner_only : ℕ
owner_only = 384

abbrev pub world_readable : ℕ
world_readable = 420

-- What the loader reads of the directory.
unfoldable pub content : Files → String → Result Bytes
unfolding lookup
content files name = elim (lookup name files) [
  | none ↦ err (plain "no such file")
  | some (bytes, mode) ↦ ok bytes
]

module _ (lib : KeygenLib) where
  unfoldable pub write_pem : String → String → Bytes → ℕ → Files → Result Files
  unfolding insert
  write_pem name pem_type bytes mode files =
      or_error (plain "failed to write") (lib.write_file name) >>= λ _.
      ok (insert name (lib.encode_pem pem_type bytes, mode) files)

  unfoldable pub write_key_pair : String → Bytes → Bytes → Files → Result Files
  unfolding write_pem
  write_key_pair alg pk sk files = do
    with_public ←
        write_pem (String.◌++◌ alg "_pk.pem") (String.◌++◌ alg " PUBLIC KEY") pk world_readable
          files
    write_pem (String.◌++◌ alg "_sk.pem") (String.◌++◌ alg " PRIVATE KEY") sk owner_only with_public

  unfoldable pub gen_rs256 : Files → Result Files
  unfolding write_pem
  gen_rs256 files = do
    (sk, marshalled) ← or_error (plain "RS256 keygen failed") lib.rsa_generate
    pk ← or_error (plain "RS256 public key marshal failed") marshalled
    with_private ← write_pem "RS256_sk.pem" "RSA PRIVATE KEY" sk owner_only files
    write_pem "RS256_pk.pem" "RSA PUBLIC KEY" pk world_readable with_private

  unfoldable pub gen_es256 : Files → Result Files
  unfolding write_pem
  gen_es256 files = do
    (marshalled_private, marshalled_public) ←
        or_error (plain "ES256 keygen failed") lib.ecdsa_generate
    sk ← or_error (plain "ES256 private key marshal failed") marshalled_private
    pk ← or_error (plain "ES256 public key marshal failed") marshalled_public
    with_private ← write_pem "ES256_sk.pem" "EC PRIVATE KEY" sk owner_only files
    write_pem "ES256_pk.pem" "EC PUBLIC KEY" pk world_readable with_private

  unfoldable pub gen_hs256 : Files → Result Files
  unfolding write_pem
  gen_hs256 files = do
    secret ← or_error (plain "HS256 secret generation failed") lib.random_secret
    write_pem "HS256_secret.pem" "HMAC SECRET" secret owner_only files

  unfoldable pub gen_eddsa : Files → Result Files
  unfolding write_pem
  gen_eddsa files = do
    (marshalled_private, marshalled_public) ←
        or_error (plain "EdDSA keygen failed") lib.ed25519_generate
    sk ← or_error (plain "EdDSA private key marshal failed") marshalled_private
    pk ← or_error (plain "EdDSA public key marshal failed") marshalled_public
    with_private ← write_pem "EdDSA_sk.pem" "PRIVATE KEY" sk owner_only files
    write_pem "EdDSA_pk.pem" "PUBLIC KEY" pk world_readable with_private

  -- main, in a directory that is empty at first
  unfoldable pub keygen : Result Files
  unfolding write_key_pair gen_rs256 gen_es256 gen_hs256 gen_eddsa
  keygen = do
    or_error (plain "failed to create") lib.make_dir
    (sk, vk) ← or_error (plain "FN-DSA-512 keygen failed") lib.fndsa_keygen
    with_fndsa ← write_key_pair "FNDSA-512" vk sk []
    with_rs256 ← gen_rs256 with_fndsa
    with_es256 ← gen_es256 with_rs256
    with_hs256 ← gen_hs256 with_es256
    gen_eddsa with_hs256
