-- ===== src/Jwt/Loader/Agreement.antt =====
-- The keys that backend/pkg/utils/jwtutils/loader.go loads, for signing and for verification.
use tasktify.Prelude.{
  String, Option, none, some, Bool, false, Result, ok, ◌>>=◌, ◌≡◌, ◌⊎◌, arith, inl, inr, All,
  lookup-All, Option-cases, refl,
}
use tasktify.External.Jwt.{SigningMethod, Bytes}
use tasktify.Jwt.Claims.{header_alg_for_config_alg, alg_fndsa_512}
use tasktify.Jwt.Multi.{AlgConfig}
use tasktify.Jwt.Loader.{
  KeyLib, Family, load_pair, load_fndsa_original, load_fndsa_precomputed, load_family, load_found,
  family_of, families, load_alg_config, fndsa_original, fndsa_precomputed, mldsa, slhdsa, ecdsa,
  rsa, hmac, eddsa,
}

-- A name stands for itself in a header, or names a profile of FN-DSA-512.
abbrev IsSpelled : String → Family → Type 0
IsSpelled alg family =
    (header_alg_for_config_alg alg ≡ alg)
    ⊎ ((header_alg_for_config_alg alg ≡ alg_fndsa_512)
        × ((family ≡ fndsa_original) ⊎ (family ≡ fndsa_precomputed)))

families-IsSpelled : All (λ e. IsSpelled e.0 e.1) families
unfolding header_alg_for_config_alg
families-IsSpelled = (
  inl refl,
  (
    inr (refl, inl refl),
    (
      inr (refl, inr refl),
      (
        inr (refl, inr refl),
        (
          inl refl,
          (
            inl refl,
            (
              inl refl,
              (
                inl refl,
                (
                  inl refl,
                  (inl refl, (inl refl, (inl refl, (inl refl, (inl refl, (inl refl, tt)))))),
                ),
              ),
            ),
          ),
        ),
      ),
    ),
  ),
)

family_of-IsSpelled : (alg : String) (f : Family) → family_of alg ≡ some f → IsSpelled alg f
unfolding family_of
family_of-IsSpelled alg f e = lookup-All IsSpelled alg families f families-IsSpelled e

module _ {Key : Type 0} (k : KeyLib Key) (dir : String → Result Bytes) where
  abbrev pub verify_key_in : Result (AlgConfig Key) → Result (Option Key)
  verify_key_in r = r >>= λ cfg. ok cfg.verify_key

  -- In either mode the public file decides the verification key.
  load_pair-key :
      (method method' : SigningMethod Key) (pk : String) (parse_pk : Bytes → Result Key)
      (sk sk' : String) (parse_sk parse_sk' : Bytes → Result Key) (mode : Bool)
      (cfg : AlgConfig Key)
      → load_pair k dir method pk parse_pk sk parse_sk mode ≡ ok cfg
      → verify_key_in (load_pair k dir method' pk parse_pk sk' parse_sk' false) ≡ ok cfg.verify_key
  unfolding load_pair
  load_pair-key method method' pk parse_pk sk sk' parse_sk parse_sk' mode cfg e = ground arith

  family-key :
      (family : Family) (alg : String) (mode : Bool) (cfg : AlgConfig Key)
      → load_family k dir family alg mode ≡ ok cfg
      → verify_key_in (load_family k dir family alg false) ≡ ok cfg.verify_key
  unfolding load_family
  family-key fndsa_original alg mode cfg e = ground arith
  family-key fndsa_precomputed alg mode cfg e = ground arith
  family-key mldsa alg mode cfg e = ground arith
  family-key slhdsa alg mode cfg e = ground arith
  family-key ecdsa alg mode cfg e = ground arith
  family-key rsa alg mode cfg e = ground arith
  family-key hmac alg mode cfg e = ground arith
  family-key eddsa alg mode cfg e = ground arith

  -- The two profiles of FN-DSA-512 read one public key.
  profiles-key :
      (mode : Bool) (cfg : AlgConfig Key)
      → load_fndsa_precomputed k dir mode ≡ ok cfg
      → verify_key_in (load_fndsa_original k dir false) ≡ ok cfg.verify_key
  unfolding load_fndsa_precomputed load_fndsa_original
  profiles-key mode cfg e = ground arith

  found-key :
      (family : Option Family) (alg : String) (mode : Bool) (cfg : AlgConfig Key)
      → load_found k dir family alg mode ≡ ok cfg
      → verify_key_in (load_found k dir family alg false) ≡ ok cfg.verify_key
  unfolding load_found
  found-key none alg mode cfg e = absurd (cc e)
  found-key (some family) alg mode cfg e = family-key family alg mode cfg e

  -- A configuration was loaded by a case of the switch.
  pub loaded_family :
      (alg : String) (mode : Bool) (cfg : AlgConfig Key)
      → load_alg_config k dir alg mode ≡ ok cfg
      → (family : Family) × (family_of alg ≡ some family)
        × (load_family k dir family alg mode ≡ ok cfg)
  unfolding load_alg_config
  loaded_family alg mode cfg e = elim (Option-cases (family_of alg)) [
    | inl unknown ↦ absurd (cc (rw (unknown, load_found) at e))
    | inr (family, is) ↦ (family, is, rw (is, load_found) at e)
  ]

  -- The name in the header loads the same key.
  header_key :
      (alg : String) (family : Family) (mode : Bool) (cfg : AlgConfig Key)
      → family_of alg ≡ some family
      → load_family k dir family alg mode ≡ ok cfg
      → IsSpelled alg family
      → verify_key_in (load_alg_config k dir (header_alg_for_config_alg alg) false)
        ≡ ok cfg.verify_key
  unfolding load_alg_config
  header_key alg family mode cfg is e (inl own) =
      rw (own, is, load_found) (family-key family alg mode cfg e)
  header_key alg family mode cfg is e (inr (header, inl original)) =
      rw header (family-key fndsa_original alg mode cfg (rw (original) at e))
  header_key alg family mode cfg is e (inr (header, inr precomputed)) =
      rw header (profiles-key mode cfg (rw (precomputed) at e))

  -- Where a profile's configuration loads, for signing or for verification, the name that its
  -- tokens show in their header loads too, with the same verification key.
  pub load_alg_config-key :
      (alg : String) (mode : Bool) (cfg : AlgConfig Key)
      → load_alg_config k dir alg mode ≡ ok cfg
      → verify_key_in (load_alg_config k dir (header_alg_for_config_alg alg) false)
        ≡ ok cfg.verify_key
  load_alg_config-key alg mode cfg e =
      let (family, is, loaded) = loaded_family alg mode cfg e in
      header_key alg family mode cfg is loaded (family_of-IsSpelled alg family is)
