-- ===== src/Keygen/Loads.antt =====
-- Proofs: the services can load all their algorithms from the files of backend/cmd/keygen.
use tasktify.Prelude.{
  ℕ, ◌≡◌, ◌≢◌, ◌⊎◌, inl, inr, refl, String, [], Bool, true, false, Result, ok, err, panic, map,
  Ensures, Ensures-bind, Ensures-step, Ensures-ok, Returns, Returns-ok, insert, lookup, ◌>>=◌, ap,
  ◌∙◌,
}
use tasktify.External.Jwt.{Bytes}
use tasktify.Jwt.Multi.{Configs}
use tasktify.Jwt.Loader.{KeyLib, load_all_alg_configs}
use tasktify.Bootstrap.{supported_algorithms}
use tasktify.Keygen.{
  KeygenLib, Files, owner_only, world_readable, content, keygen, write_pem, write_key_pair,
  gen_rs256, gen_es256, gen_hs256, gen_eddsa,
}

-- What the library generates and encodes, the loader's parsers read back.
pub record ReadsBack {Key : Type 0} (lib : KeygenLib) (k : KeyLib Key) : Type 0 where
  pub fndsa :
      (sk vk : Bytes)
      → lib.fndsa_keygen ≡ ok (sk, vk)
      → (key : Key) × (public : Key) × (k.fndsa_private (lib.encode_pem "FNDSA-512 PRIVATE KEY" sk)
          ≡ ok key)
        × (k.fndsa_public (lib.encode_pem "FNDSA-512 PUBLIC KEY" vk) ≡ ok public)
  pub rsa :
      (sk pk : Bytes)
      → lib.rsa_generate ≡ ok (sk, ok pk)
      → (key : Key) × (public : Key) × (k.rsa_private (lib.encode_pem "RSA PRIVATE KEY" sk)
          ≡ ok key)
        × (k.rsa_public (lib.encode_pem "RSA PUBLIC KEY" pk) ≡ ok public)
  pub ecdsa :
      (sk pk : Bytes)
      → lib.ecdsa_generate ≡ ok (ok sk, ok pk)
      → (key : Key) × (public : Key) × (k.ec_private (lib.encode_pem "EC PRIVATE KEY" sk) ≡ ok key)
        × (k.ec_public (lib.encode_pem "EC PUBLIC KEY" pk) ≡ ok public)
  pub ed25519 :
      (sk pk : Bytes)
      → lib.ed25519_generate ≡ ok (ok sk, ok pk)
      → (key : Key) × (public : Key) × (k.ed_private (lib.encode_pem "PRIVATE KEY" sk) ≡ ok key)
        × (k.ed_public (lib.encode_pem "PUBLIC KEY" pk) ≡ ok public)
  pub hmac :
      (secret : Bytes)
      → lib.random_secret ≡ ok secret
      → (key : Key) × (k.fndsa_private (lib.encode_pem "HMAC SECRET" secret) ≡ ok key)

module _ (lib : KeygenLib) where
  abbrev written : String → String → Bytes → ℕ → Files → Files
  written name pem_type bytes mode files = insert name (lib.encode_pem pem_type bytes, mode) files

  write_pem-Ensures :
      (name pem_type : String) (bytes : Bytes) (mode : ℕ) (files : Files)
      → Ensures
          (λ out. out ≡ written name pem_type bytes mode files)
          (write_pem lib name pem_type bytes mode files)
  unfolding write_pem
  write_pem-Ensures name pem_type bytes mode files =
      Ensures-step _ (lib.write_file name) _ λ _ _. Ensures-ok _ refl

  -- Two files, one after the other.
  write_both :
      (name₁ type₁ : String) (bytes₁ : Bytes) (mode₁ : ℕ) (name₂ type₂ : String) (bytes₂ : Bytes)
      (mode₂ : ℕ) (files : Files)
      → Ensures
          (λ out. out ≡ written name₂ type₂ bytes₂ mode₂ (written name₁ type₁ bytes₁ mode₁ files))
          (write_pem lib name₁ type₁ bytes₁ mode₁ files >>= write_pem lib name₂ type₂ bytes₂ mode₂)
  write_both name₁ type₁ bytes₁ mode₁ name₂ type₂ bytes₂ mode₂ files =
      Ensures-bind (write_pem lib name₁ type₁ bytes₁ mode₁ files) _ λ first e. record {
        at = λ out e'.
            (write_pem-Ensures name₂ type₂ bytes₂ mode₂ first).at out e'
            ∙ ap (written name₂ type₂ bytes₂ mode₂)
                ((write_pem-Ensures name₁ type₁ bytes₁ mode₁ files).at first e);
      }

  gen_rs256-Ensures :
      (files : Files)
      → Ensures
          (λ out.
            (sk : Bytes) × (pk : Bytes) × (lib.rsa_generate ≡ ok (sk, ok pk))
            × (out
                ≡ written "RS256_pk.pem" "RSA PUBLIC KEY" pk world_readable
                    (written "RS256_sk.pem" "RSA PRIVATE KEY" sk owner_only files)))
          (gen_rs256 lib files)
  unfolding gen_rs256
  gen_rs256-Ensures files = Ensures-step _ lib.rsa_generate _ λ p e. Ensures-step _ p.1 _ λ pk e'.
      record {
        at = λ out w.
            (p.0, pk, e ∙ ap (λ r. ok (p.0, r)) e', (write_both _ _ _ _ _ _ _ _ files).at out w);
      }

  gen_es256-Ensures :
      (files : Files)
      → Ensures
          (λ out.
            (sk : Bytes) × (pk : Bytes) × (lib.ecdsa_generate ≡ ok (ok sk, ok pk))
            × (out
                ≡ written "ES256_pk.pem" "EC PUBLIC KEY" pk world_readable
                    (written "ES256_sk.pem" "EC PRIVATE KEY" sk owner_only files)))
          (gen_es256 lib files)
  unfolding gen_es256
  gen_es256-Ensures files = Ensures-step _ lib.ecdsa_generate _ λ p e. Ensures-step _ p.0 _ λ sk e₁.
      Ensures-step _ p.1 _ λ pk e₂. record {
        at = λ out w. (sk, pk, e ∙ rw (e₁, e₂) refl, (write_both _ _ _ _ _ _ _ _ files).at out w);
      }

  gen_eddsa-Ensures :
      (files : Files)
      → Ensures
          (λ out.
            (sk : Bytes) × (pk : Bytes) × (lib.ed25519_generate ≡ ok (ok sk, ok pk))
            × (out
                ≡ written "EdDSA_pk.pem" "PUBLIC KEY" pk world_readable
                    (written "EdDSA_sk.pem" "PRIVATE KEY" sk owner_only files)))
          (gen_eddsa lib files)
  unfolding gen_eddsa
  gen_eddsa-Ensures files = Ensures-step _ lib.ed25519_generate _ λ p e.
      Ensures-step _ p.0 _ λ sk e₁. Ensures-step _ p.1 _ λ pk e₂. record {
        at = λ out w. (sk, pk, e ∙ rw (e₁, e₂) refl, (write_both _ _ _ _ _ _ _ _ files).at out w);
      }

  gen_hs256-Ensures :
      (files : Files)
      → Ensures
          (λ out.
            (secret : Bytes) × (lib.random_secret ≡ ok secret)
            × (out ≡ written "HS256_secret.pem" "HMAC SECRET" secret owner_only files))
          (gen_hs256 lib files)
  unfolding gen_hs256
  gen_hs256-Ensures files =
      Ensures-step _ lib.random_secret _
        λ secret e. record { at = λ out w. (secret, e, (write_pem-Ensures _ _ _ _ files).at out w) }

module _ {Key : Type 0} (lib : KeygenLib) (k : KeyLib Key) (reads : ReadsBack lib k) where
  -- All algorithms are loaded from a directory in the mode, each with its configuration.
  abbrev pub LoadsAll : Files → Bool → Type 0
  LoadsAll files sign_mode =
      Returns (λ (configs : Configs Key). map (λ entry. entry.0) configs ≡ supported_algorithms)
        (load_all_alg_configs k (content files) supported_algorithms sign_mode)

  -- NewPrecomputedSigner gives no signer for the FN-DSA key of a directory.
  abbrev pub SignerRefused : Files → Type 0
  SignerRefused files =
      (bytes : Bytes) × (key : Key) × (content files "FNDSA-512_sk.pem" ≡ ok bytes)
      × (k.fndsa_private bytes ≡ ok key)
      × ((signer : Key) → k.new_signer key ≢ ok signer)

  -- In either mode, and with that exception in sign mode.
  abbrev pub LoadsBoth : Files → Type 0
  LoadsBoth files = LoadsAll files false × (LoadsAll files true ⊎ SignerRefused files)

  is_signer :
      (r : Result Key) → ((signer : Key) × (r ≡ ok signer)) ⊎ ((signer : Key) → r ≢ ok signer)
  is_signer (ok signer) = inl (signer, refl)
  is_signer (err e) = inr (λ signer same. cc same)
  is_signer panic = inr (λ signer same. cc same)

  keygen-LoadsBoth : Ensures LoadsBoth (keygen lib)
  unfolding keygen write_key_pair load_all_alg_configs content insert lookup
  keygen-LoadsBoth = Ensures-step _ lib.make_dir _ λ _ _. Ensures-step _ lib.fndsa_keygen _ λ p fn.
      Ensures-bind (write_key_pair lib "FNDSA-512" p.1 p.0 []) _ λ with_fndsa a.
        Ensures-bind (gen_rs256 lib with_fndsa) _ λ with_rs256 b.
          Ensures-bind (gen_es256 lib with_rs256) _ λ with_es256 c.
            Ensures-bind (gen_hs256 lib with_es256) _ λ with_hs256 d. record {
              at = λ files e.
                  let fndsa = (write_both lib _ _ _ _ _ _ _ _ []).at with_fndsa a in
                  let (rsa_sk, rsa_pk, rsa, rs256) =
                    (gen_rs256-Ensures lib with_fndsa).at with_rs256 b in
                  let (ec_sk, ec_pk, ecdsa, es256) =
                    (gen_es256-Ensures lib with_rs256).at with_es256 c in
                  let (secret, random, hs256) =
                    (gen_hs256-Ensures lib with_es256).at with_hs256 d in
                  let (ed_sk, ed_pk, ed25519, eddsa) =
                    (gen_eddsa-Ensures lib with_hs256).at files e in
                  let (key, _, fn_private, fn_public) = reads.fndsa (p.0) (p.1) fn in
                  let (_, _, rsa_private, rsa_public) = reads.rsa rsa_sk rsa_pk rsa in
                  let (_, _, ec_private, ec_public) = reads.ecdsa ec_sk ec_pk ecdsa in
                  let (_, _, ed_private, ed_public) = reads.ed25519 ed_sk ed_pk ed25519 in
                  let (_, hmac) = reads.hmac secret random in
                  (
                    rw (eddsa, hs256, es256, rs256, fndsa)
                        (rw (fn_public, hmac, rsa_public, ec_public, ed_public)
                          (Returns-ok _ refl)),
                    elim (is_signer (k.new_signer key)) [
                      | inl (_, fn_signer) ↦ inl (
                          rw (eddsa, hs256, es256, rs256, fndsa)
                            (rw
                              (
                                fn_public, fn_private, fn_signer, hmac, rsa_public, rsa_private,
                                ec_public, ec_private, ed_public, ed_private,
                              )
                              (Returns-ok _ refl)))
                      | inr refused ↦
                          inr (
                            _,
                            key,
                            rw (eddsa, hs256, es256, rs256, fndsa) refl,
                            fn_private,
                            refused,
                          )
                    ],
                  );
            }

  -- With parsers that read back what the library encodes: where keygen succeeds, LoadAllAlgConfigs
  -- loads a configuration for each of the supported algorithms from the files that it has written,
  -- without sign mode always, and in sign mode unless NewPrecomputedSigner gives no signer for the
  -- FN-DSA key that was written.
  pub keygen-load_all_alg_configs :
      (files : Files)
      → keygen lib ≡ ok files
      → LoadsAll files false × (LoadsAll files true ⊎ SignerRefused files)
  keygen-load_all_alg_configs = keygen-LoadsBoth.at
