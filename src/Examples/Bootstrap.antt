-- ===== src/Examples/Bootstrap.antt =====
-- The theorems on Bootstrap of the two services, with a directory in which every key is there.
use tasktify.Prelude.{
  ℕ, ◌≡◌, ◌≢◌, refl, subst, String, Option, none, some, some-injective, [], ◌∷◌, true, Result, ok,
  In, arith, inl, inr,
}
use tasktify.Prelude.Int.{ℤ, pos, div_floor, ltb_ℤ, wrap64, ◌+ℤ◌, ◌*ℤ◌}
use tasktify.External.Jwt.{Bytes, Header, JwtLib, SigningMethod}
use tasktify.Jwt.Claims.{JwtClaims, JwtPayload, new_claims}
use tasktify.Jwt.Util.{token_header, use_or_access, sign_with}
use tasktify.Jwt.Multi.{
  AlgConfig, MultiUtil, sign, sign_found, sign_config, config_for_sign_alg, multi_util,
}
use tasktify.Jwt.Issued.{IsIssuable, IsCurrent, issued_claims}
use tasktify.Jwt.Loader.{
  KeyLib, Family, fndsa_original, fndsa_precomputed, mldsa, slhdsa, ecdsa, rsa, hmac, eddsa,
  load_family, load_alg_config, load_all_alg_configs, family_of,
}
use tasktify.Jwt.Loader.Agreement.{loaded_family}
use tasktify.Jwt.Loader.Methods.{HasNames}
use tasktify.Gateway.Middleware.{handle}
use tasktify.Bootstrap.{Settings, auth_bootstrap, gateway_bootstrap, gateway_algs, key_files}
use tasktify.Bootstrap.Texts.{split, trim_space}
use tasktify.Bootstrap.Passes.{IsTight, bootstrap-handle}
use tasktify.Bootstrap.Strict.{auth_bootstrap-strict}
use tasktify.Examples.Uuids.{uuids, rendered, render_mark}
use tasktify.Examples.Tokens.{one_token, one_token-IsJwtLib, signed_known}
use tasktify.Examples.Jwt.{alice_refresh, issuing, later, filled}
use tasktify.Examples.Loader.{named, some_keys}

-- Every file of keys has the key 7.
abbrev pub sevens : KeyLib ℕ
sevens = record some_keys {
  fndsa_public = λ bytes. ok 7;
  fndsa_private = λ bytes. ok 7;
  mldsa_public = λ alg bytes. ok 7;
  slhdsa_public = λ alg bytes. ok 7;
  ec_public = λ bytes. ok 7;
  rsa_public = λ bytes. ok 7;
  ed_public = λ bytes. ok 7;
}

abbrev pub every_file : String → String → Result Bytes
every_file dir name = ok []

pub sevens-HasNames : HasNames sevens
sevens-HasNames = record {
  fn512 = refl;
  precomputed = λ signer. refl;
  mldsa44 = refl;
  mldsa65 = refl;
  mldsa87 = refl;
  slhdsa_sha2_128f = refl;
  slhdsa_sha2_128s = refl;
  slhdsa_shake_128f = refl;
  slhdsa_shake_128s = refl;
  es256 = refl;
  rs256 = refl;
  hs256 = refl;
  eddsa = refl;
}

abbrev pub settings : Settings
settings = record {
  keys_dir = "";
  jwt_default_alg = "ES256";
  jwt_allowed_algs = "ES256,EdDSA";
  jwt_issuer = "tasktify";
  jwt_audience = "app";
  jwt_token_duration = pos 15;
}

abbrev files : String → Result Bytes
files = key_files sevens every_file settings

family_seven :
    (family : Family) (name : String) (cfg : AlgConfig ℕ)
    → load_family sevens files family name true ≡ ok cfg
    → cfg.verify_key ≡ some 7
unfolding load_family
family_seven fndsa_original name cfg e = ground arith
family_seven fndsa_precomputed name cfg e = ground arith
family_seven mldsa name cfg e = ground arith
family_seven slhdsa name cfg e = ground arith
family_seven ecdsa name cfg e = ground arith
family_seven rsa name cfg e = ground arith
family_seven hmac name cfg e = ground arith
family_seven eddsa name cfg e = ground arith

abbrev pub signing : MultiUtil ℕ
signing = record {
  issuer = "tasktify";
  audience = "app";
  duration = pos 15;
  default_alg = "ES256";
  configs =
      (
        "ES256",
        some (record { method = some (named "ES256"); sign_key = some 3; verify_key = some 7 }),
      )
      ∷ (
        "EdDSA",
        some (record { method = some (named "EdDSA"); sign_key = some 1; verify_key = some 7 }),
      )
      ∷ [];
}

abbrev pub verifying : MultiUtil ℕ
verifying = record signing {
  configs =
      (
        "ES256",
        some (record { method = some (named "ES256"); sign_key = none; verify_key = some 7 }),
      )
      ∷ (
        "EdDSA",
        some (record { method = some (named "EdDSA"); sign_key = none; verify_key = some 7 }),
      )
      ∷ [];
}

pub auth_started : auth_bootstrap sevens every_file settings ≡ ok signing
unfolding auth_bootstrap split load_all_alg_configs
auth_started = refl

abbrev config : SigningMethod ℕ → Option ℕ → Option (AlgConfig ℕ)
config method key = some (record { method = some method; sign_key = key; verify_key = some 7 })

abbrev pub benchmarking : MultiUtil ℕ
benchmarking = record signing {
  configs =
      ("FN-DSA-512", config (named "FN-DSA-512") (some 7))
      ∷ ("FN-DSA-Precomputed-512", config (named "FN-DSA-512") none)
      ∷ ("Falcon-512", config (named "FN-DSA-512") (some 7))
      ∷ ("Falcon-Precomputed-512", config (named "FN-DSA-512") none)
      ∷ ("HS256", config (named "HS256") (some 7))
      ∷ ("RS256", config (named "RS256") (some 2))
      ∷ ("ES256", config (named "ES256") (some 3))
      ∷ ("EdDSA", config (named "EdDSA") (some 1))
      ∷ [];
}

pub gateway_started : gateway_bootstrap sevens every_file settings ≡ ok (verifying, benchmarking)
unfolding gateway_bootstrap split trim_space load_all_alg_configs
gateway_started = refl

abbrev alice_access : JwtPayload
alice_access = record alice_refresh { token_use = "access" }

abbrev claims : JwtClaims
claims = issued_claims uuids signing issuing alice_access

abbrev header : Header
header = token_header "ES256" "access"

abbrev lib : JwtLib ℕ JwtClaims
lib = one_token header claims

token_signed : sign lib uuids signing issuing alice_access ≡ ok "token"
unfolding sign config_for_sign_alg sign_found sign_config sign_with use_or_access
token_signed = signed_known header claims (named "ES256") (some 3) refl

issuable : IsIssuable uuids alice_access
issuable = record {
  has_user = λ e. absurd (ground arith);
  has_email = filled alice_access.email refl;
  rendered = rendered 3;
  known_use = inr (inl refl);
}

current : IsCurrent uuids signing alice_access issuing later
unfolding new_claims div_floor wrap64 ◌+ℤ◌ ◌*ℤ◌
current = record {
  issued = refl;
  unexpired = λ expiry e.
      subst (λ (x : ℤ). ltb_ℤ (div_floor later.now 1_000_000_000) x ≡ true)
        (some-injective _ expiry e) refl;
}

pub tight : IsTight "ES256,EdDSA"
unfolding split trim_space
tight set = ((refl, filled "ES256" refl), ((refl, filled "EdDSA" refl), tt))

pub pairs :
    (name : String) (cfg : AlgConfig ℕ) (method : SigningMethod ℕ)
    → load_alg_config sevens files name true ≡ ok cfg
    → cfg.method ≡ some method
    → cfg.verify_key ≡ some 7
pairs name cfg method loaded has =
    let (family, is, own) = loaded_family sevens files name true cfg loaded in
    family_seven family name cfg own

bootstrap-handle_example :
    handle (multi_util lib uuids verifying) uuids later "Bearer token"
    ≡ ok (record { user_id = some "111#"; user_email = some "alice@example.org" })
unfolding render_mark
bootstrap-handle_example =
    bootstrap-handle sevens every_file settings sevens-HasNames lib uuids
      (one_token-IsJwtLib header claims) signing verifying benchmarking issuing later alice_access
      "token" tight auth_started gateway_started pairs issuable refl token_signed current
      (ground arith)

-- A list as it may be written by hand, with a space behind the comma.
abbrev spaced : Settings
spaced = record settings { jwt_allowed_algs = "FN-DSA-512, HS256" }

spaced_parts : In " HS256" (split "FN-DSA-512, HS256")
unfolding split
spaced_parts = inr (inl refl)

spaced_unknown : family_of " HS256" ≡ none
unfolding family_of
spaced_unknown = refl

auth_bootstrap-strict_example : auth_bootstrap sevens every_file spaced ≢ ok signing
auth_bootstrap-strict_example =
    auth_bootstrap-strict sevens every_file spaced " HS256" signing
      (filled spaced.jwt_allowed_algs refl) spaced_parts spaced_unknown

gateway_spaced : gateway_algs "FN-DSA-512, HS256" ≡ "FN-DSA-512" ∷ "HS256" ∷ []
unfolding gateway_algs split trim_space
gateway_spaced = refl
