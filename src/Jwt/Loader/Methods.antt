-- ===== src/Jwt/Loader/Methods.antt =====
-- The methods that backend/pkg/utils/jwtutils/loader.go puts into its configurations.
use tasktify.Prelude.{
  true, false, none, ◌∙◌, sym, Ensures, Ensures-ok, Ensures-bind, Ensures-step, ◌≡◌, refl, String,
  Option, some, Bool, Result, ok, All, lookup-All, arith,
}
use tasktify.External.Jwt.{SigningMethod, Bytes}
use tasktify.Jwt.Claims.{header_alg_for_config_alg}
use tasktify.Jwt.Multi.{AlgConfig}
use tasktify.Jwt.Loader.{
  KeyLib, Family, fndsa_original, fndsa_precomputed, mldsa, slhdsa, read_file, load_pair,
  load_fndsa_original, load_fndsa_precomputed, load_mldsa, mldsa_method, load_slhdsa, slhdsa_method,
  load_ecdsa, load_rsa, load_hmac, load_eddsa, load_family, family_of, families, load_alg_config,
}
use tasktify.Jwt.Loader.Agreement.{loaded_family}

-- The registered names of the methods (RFC 7518 and the drafts on post-quantum signatures).
pub record HasNames {Key : Type 0} (k : KeyLib Key) : Type 0 where
  pub fn512 : k.fn512.alg ≡ "FN-DSA-512"
  pub precomputed : (signer : Option Key) → (k.precomputed signer).alg ≡ "FN-DSA-512"
  pub mldsa44 : k.mldsa44.alg ≡ "ML-DSA-44"
  pub mldsa65 : k.mldsa65.alg ≡ "ML-DSA-65"
  pub mldsa87 : k.mldsa87.alg ≡ "ML-DSA-87"
  pub slhdsa_sha2_128f : k.slhdsa_sha2_128f.alg ≡ "SLH-DSA-SHA2-128f"
  pub slhdsa_sha2_128s : k.slhdsa_sha2_128s.alg ≡ "SLH-DSA-SHA2-128s"
  pub slhdsa_shake_128f : k.slhdsa_shake_128f.alg ≡ "SLH-DSA-SHAKE-128f"
  pub slhdsa_shake_128s : k.slhdsa_shake_128s.alg ≡ "SLH-DSA-SHAKE-128s"
  pub es256 : k.es256.alg ≡ "ES256"
  pub rs256 : k.rs256.alg ≡ "RS256"
  pub hs256 : k.hs256.alg ≡ "HS256"
  pub eddsa : k.eddsa.alg ≡ "EdDSA"

-- The configuration has a method, and the method has the name that the header of a token shows.
abbrev pub HasMethod : {Key : Type 0} → String → AlgConfig Key → Type 0
HasMethod {Key} name cfg =
    (m : SigningMethod Key) × (cfg.method ≡ some m) × (m.alg ≡ header_alg_for_config_alg name)

module _ {Key : Type 0} (k : KeyLib Key) (dir : String → Result Bytes) where
  load_pair-method :
      (method : SigningMethod Key) (pk : String) (parse_pk : Bytes → Result Key) (sk : String)
      (parse_sk : Bytes → Result Key) (mode : Bool) (cfg : AlgConfig Key)
      → load_pair k dir method pk parse_pk sk parse_sk mode ≡ ok cfg
      → cfg.method ≡ some method
  unfolding load_pair
  load_pair-method method pk parse_pk sk parse_sk mode cfg e = ground arith

  precomputed-Ensures :
      (mode : Bool)
      → Ensures
          (λ cfg. (signer : Option Key) × (cfg.method ≡ some (k.precomputed signer)))
          (load_fndsa_precomputed k dir mode)
  unfolding load_fndsa_precomputed
  precomputed-Ensures true = Ensures-bind (read_file k dir "FNDSA-512_pk.pem") _ λ vk_bytes _.
      Ensures-bind (k.fndsa_public vk_bytes) _ λ vk _.
        Ensures-bind (read_file k dir "FNDSA-512_sk.pem") _ λ sk_bytes _.
          Ensures-bind (k.fndsa_private sk_bytes) _
            λ sk _. Ensures-step _ (k.new_signer sk) _ λ signer _. Ensures-ok _ (some signer, refl)
  precomputed-Ensures false =
      Ensures-bind (read_file k dir "FNDSA-512_pk.pem") _
        λ vk_bytes _. Ensures-bind (k.fndsa_public vk_bytes) _ λ vk _. Ensures-ok _ (none, refl)

  load_mldsa-method :
      (alg : String) (mode : Bool) (cfg : AlgConfig Key)
      → load_mldsa k dir alg mode ≡ ok cfg
      → cfg.method ≡ mldsa_method k dir alg
  unfolding load_mldsa
  load_mldsa-method alg mode cfg e = ground arith

  hmac_method :
      (mode : Bool) (cfg : AlgConfig Key)
      → load_hmac k dir mode ≡ ok cfg
      → cfg.method ≡ some k.hs256
  unfolding load_hmac
  hmac_method mode cfg e = ground arith

  load_slhdsa-method :
      (alg : String) (method : SigningMethod Key) (mode : Bool) (cfg : AlgConfig Key)
      → slhdsa_method k dir alg ≡ ok method
      → load_slhdsa k dir alg mode ≡ ok cfg
      → cfg.method ≡ some method
  unfolding load_slhdsa
  load_slhdsa-method alg method mode cfg is e =
      load_pair-method method _ _ _ _ mode cfg (rw is at e)

  module _ (names : HasNames k) where
    abbrev Gives : String → Family → Type 0
    Gives name family =
        (mode : Bool) (cfg : AlgConfig Key)
        → load_family k dir family name mode ≡ ok cfg
        → HasMethod name cfg

    fndsa-Gives :
        (name : String) → header_alg_for_config_alg name ≡ "FN-DSA-512" → Gives name fndsa_original
    unfolding load_family load_fndsa_original
    fndsa-Gives name header mode cfg e =
        (k.fn512, load_pair-method _ _ _ _ _ mode cfg e, names.fn512 ∙ sym header)

    precomputed-Gives :
        (name : String)
        → header_alg_for_config_alg name ≡ "FN-DSA-512"
        → Gives name fndsa_precomputed
    unfolding load_family
    precomputed-Gives name header mode cfg e =
        let (signer, has) = (precomputed-Ensures mode).at cfg e in
        (k.precomputed signer, has, names.precomputed signer ∙ sym header)

    mldsa-Gives :
        (name : String) (m : SigningMethod Key)
        → mldsa_method k dir name ≡ some m
        → m.alg ≡ header_alg_for_config_alg name
        → Gives name mldsa
    unfolding load_family
    mldsa-Gives name m is same mode cfg e = (m, load_mldsa-method name mode cfg e ∙ is, same)

    slhdsa-Gives :
        (name : String) (m : SigningMethod Key)
        → slhdsa_method k dir name ≡ ok m
        → m.alg ≡ header_alg_for_config_alg name
        → Gives name slhdsa
    unfolding load_family
    slhdsa-Gives name m is same mode cfg e = (m, load_slhdsa-method name m mode cfg is e, same)

    families-Gives : All (λ e. Gives e.0 e.1) families
    unfolding header_alg_for_config_alg mldsa_method slhdsa_method load_family load_ecdsa load_rsa
        load_eddsa
    families-Gives = (
      fndsa-Gives "FN-DSA-512" refl,
      (
        fndsa-Gives "Falcon-512" refl,
        (
          precomputed-Gives "FN-DSA-Precomputed-512" refl,
          (
            precomputed-Gives "Falcon-Precomputed-512" refl,
            (
              mldsa-Gives "ML-DSA-44" k.mldsa44 refl names.mldsa44,
              (
                mldsa-Gives "ML-DSA-65" k.mldsa65 refl names.mldsa65,
                (
                  mldsa-Gives "ML-DSA-87" k.mldsa87 refl names.mldsa87,
                  (
                    slhdsa-Gives "SLH-DSA-SHA2-128f" k.slhdsa_sha2_128f refl names.slhdsa_sha2_128f,
                    (
                      slhdsa-Gives "SLH-DSA-SHA2-128s" k.slhdsa_sha2_128s refl
                          names.slhdsa_sha2_128s,
                      (
                        slhdsa-Gives "SLH-DSA-SHAKE-128f" k.slhdsa_shake_128f refl
                            names.slhdsa_shake_128f,
                        (
                          slhdsa-Gives "SLH-DSA-SHAKE-128s" k.slhdsa_shake_128s refl
                              names.slhdsa_shake_128s,
                          (
                            (λ mode cfg e.
                                (k.es256, load_pair-method _ _ _ _ _ mode cfg e, names.es256)),
                            (
                              (λ mode cfg e.
                                  (k.rs256, load_pair-method _ _ _ _ _ mode cfg e, names.rs256)),
                              (
                                (λ mode cfg e. (k.hs256, hmac_method mode cfg e, names.hs256)),
                                (
                                  (λ mode cfg e. (
                                    k.eddsa,
                                    load_pair-method _ _ _ _ _ mode cfg e,
                                    names.eddsa,
                                  )),
                                  tt,
                                ),
                              ),
                            ),
                          ),
                        ),
                      ),
                    ),
                  ),
                ),
              ),
            ),
          ),
        ),
      ),
    )

    -- A loaded configuration has a method, whose name is the one that tokens signed with the
    -- configuration's name show in their header.
    pub load_alg_config-HasMethod :
        (name : String) (mode : Bool) (cfg : AlgConfig Key)
        → load_alg_config k dir name mode ≡ ok cfg
        → HasMethod name cfg
    unfolding family_of
    load_alg_config-HasMethod name mode cfg e =
        let (family, is, loaded) = loaded_family k dir name mode cfg e in
        lookup-All Gives name families family families-Gives is mode cfg loaded
