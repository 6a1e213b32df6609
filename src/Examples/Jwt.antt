-- ===== src/Examples/Jwt.antt =====
-- The theorems on backend/pkg/utils/jwtutils at a utility with one ES256 key.
use tasktify.Prelude.{
  ℕ, ◌≡◌, ◌≢◌, refl, sym, ap, subst, ◌∙◌, inl, inr, String, Option, none, some, some-injective, [],
  ◌∷◌, ok, In, arith, true, false, str_eq, eq_iff, ◌↔◌,
}
use tasktify.Prelude.Int.{ℤ, pos, ltb_ℤ, div_floor, ◌+ℤ◌, ◌*ℤ◌, wrap64}
use tasktify.External.Jwt.{Header, SigningMethod, JwtLib}
use tasktify.Jwt.Claims.{JwtClaims, JwtPayload, Moment, new_claims}
use tasktify.Jwt.Util.{token_header, use_or_access, sign_with}
use tasktify.Jwt.Multi.{
  AlgConfig, Configs, MultiUtil, sign, sign_found, sign_config, config_for_sign_alg, parse, key_for,
}
use tasktify.Jwt.Keys.{IsKeyOf}
use tasktify.Jwt.KeyOrder.{IsUniform, Usables, key_for-order}
use tasktify.Jwt.Issued.{issued_claims, IsIssuable}
use tasktify.Jwt.Issuance.{AreKeyPairs, sign-parse}
use tasktify.Jwt.Acceptance.{IsAccepted, parse_sound}
use tasktify.Examples.Uuids.{uuids, rendered}
use tasktify.Examples.Tokens.{one_token, one_token-IsJwtLib, signed_known}

abbrev pub es256 : SigningMethod ℕ
es256 = record { alg = "ES256"; sign = λ text key. ok [] }

abbrev fndsa : SigningMethod ℕ
fndsa = record { alg = "FN-DSA-512"; sign = λ text key. ok [] }

abbrev pub es256_config : AlgConfig ℕ
es256_config = record { method = some es256; sign_key = some 5; verify_key = some 7 }

abbrev pub one_config : Configs ℕ
one_config = ("ES256", some es256_config) ∷ []

abbrev pub util : MultiUtil ℕ
util = record {
  issuer = "tasktify";
  audience = "app";
  duration = pos 15;
  default_alg = "ES256";
  configs = one_config;
}

abbrev pub alice_refresh : JwtPayload
alice_refresh = record {
  user_id = 3;
  email = "alice@example.org";
  algorithm = "";
  token_use = "refresh";
}

abbrev pub issuing : Moment
issuing = record { now = pos 1_700_000_000_000_000_000; new_id = "first" }

abbrev pub later : Moment
later = record { now = pos 1_700_000_060_000_000_000; new_id = "second" }

abbrev pub claims : JwtClaims
claims = issued_claims uuids util issuing alice_refresh

abbrev pub header : Header
header = token_header "ES256" "refresh"

abbrev pub lib : JwtLib ℕ JwtClaims
lib = one_token header claims

pub signed : sign lib uuids util issuing alice_refresh ≡ ok "token"
unfolding sign config_for_sign_alg sign_found sign_config sign_with use_or_access
signed = signed_known header claims es256 (some 5) refl

key_of : (alg : String) (k : Option ℕ) → IsKeyOf one_config alg k → k ≡ some 7
key_of alg k i = elim i.configured [
  | inl here ↦
      let same : i.config ≡ es256_config =
        some-injective _ _ (ap (λ (e : String × Option (AlgConfig ℕ)). e.1) here) in
      sym i.its_key ∙ ap (λ (c : AlgConfig ℕ). c.verify_key) same
  | inr rest ↦ elim rest [ ]
]

uniform : IsUniform one_config
uniform alg k l i j = key_of alg k i ∙ sym (key_of alg l j)

usable : Usables one_config
usable entry (inl here) = rw here (es256_config, es256, refl, refl)
usable entry (inr rest) = elim rest [ ]

-- The configuration's keys belong together, whichever token is the known one.
pub keys_of :
    (h : Header) (c : JwtClaims) → AreKeyPairs (one_token h c) uuids (one_token-IsJwtLib h c) util
keys_of h c = record {
  usable = usable;
  uniform = uniform;
  pairs = λ name cfg method i has. elim i [
    | inl here ↦
        ap (λ (c : AlgConfig ℕ). c.verify_key)
          (some-injective _ _ (ap (λ (e : String × Option (AlgConfig ℕ)). e.1) here))
    | inr rest ↦ elim rest [ ]
  ];
}

pub keys : AreKeyPairs lib uuids (one_token-IsJwtLib header claims) util
keys = keys_of header claims

pub filled : (s : String) → str_eq s "" ≡ false → s ≢ ""
filled s e f = absurd (ground (arith, eq_iff s ""))

issuable : IsIssuable uuids alice_refresh
issuable = record {
  has_user = λ e. absurd (ground arith);
  has_email = λ e. filled alice_refresh.email refl e;
  rendered = λ e. rendered 3 e;
  known_use = inr (inr refl);
}

pub unexpired :
    (expiry : ℤ)
    → claims.registered.expires_at ≡ some expiry
    → ltb_ℤ (div_floor later.now 1_000_000_000) expiry ≡ true
unfolding new_claims div_floor wrap64 ◌+ℤ◌ ◌*ℤ◌
unexpired expiry e =
    subst (λ (x : ℤ). ltb_ℤ (div_floor later.now 1_000_000_000) x ≡ true)
      (some-injective _ expiry e) refl

sign-parse_example : parse lib uuids util later "token" ≡ ok claims
unfolding div_floor
sign-parse_example =
    sign-parse lib uuids (one_token-IsJwtLib header claims) util issuing later alice_refresh "token"
      keys issuable signed refl unexpired (ground arith)

parsed : parse lib uuids util later "token" ≡ ok claims
unfolding div_floor
parsed =
    sign-parse lib uuids (one_token-IsJwtLib header claims) util issuing later alice_refresh "token"
      keys issuable signed refl unexpired (ground arith)

parse_sound_example :
    IsAccepted lib uuids (one_token-IsJwtLib header claims) util later "token" claims
parse_sound_example =
    parse_sound lib uuids (one_token-IsJwtLib header claims) util later "token" claims parsed

abbrev plain_config : AlgConfig ℕ
plain_config = record { method = some fndsa; sign_key = some 5; verify_key = some 7 }

abbrev precomputed_config : AlgConfig ℕ
precomputed_config = record { method = some fndsa; sign_key = none; verify_key = some 7 }

abbrev profiles : Configs ℕ
profiles =
    ("FN-DSA-512", some plain_config) ∷ ("FN-DSA-Precomputed-512", some precomputed_config) ∷ []

abbrev profiles' : Configs ℕ
profiles' =
    ("FN-DSA-Precomputed-512", some precomputed_config) ∷ ("FN-DSA-512", some plain_config) ∷ []

same_entries : (e : String × Option (AlgConfig ℕ)) → In e profiles ↔ In e profiles'
same_entries e = (
  λ i. elim i [ inl a ↦ inr (inl a) | inr r ↦ elim r [ inl b ↦ inl b | inr n ↦ elim n [ ] ] ],
  λ i. elim i [ inl a ↦ inr (inl a) | inr r ↦ elim r [ inl b ↦ inl b | inr n ↦ elim n [ ] ] ],
)

profiles-Usables : Usables profiles
profiles-Usables entry (inl here) = rw here (plain_config, fndsa, refl, refl)
profiles-Usables entry (inr (inl here)) = rw here (precomputed_config, fndsa, refl, refl)
profiles-Usables entry (inr (inr rest)) = elim rest [ ]

its_config :
    (name : String) (c d : AlgConfig ℕ) (n : String)
    → ◌≡◌ {A = String × Option (AlgConfig ℕ)} (n, some c) (name, some d)
    → c.verify_key ≡ d.verify_key
its_config name c d n e =
    ap (λ (x : AlgConfig ℕ). x.verify_key)
      (some-injective _ _ (ap (λ (x : String × Option (AlgConfig ℕ)). x.1) e))

profile_key : (alg : String) (k : Option ℕ) → IsKeyOf profiles alg k → k ≡ some 7
profile_key alg k i = elim i.configured [
  | inl here ↦ sym i.its_key ∙ its_config _ _ _ _ here
  | inr r ↦ elim r [ inl here ↦ sym i.its_key ∙ its_config _ _ _ _ here | inr n ↦ elim n [ ] ]
]

key_for-order_example : key_for profiles "FN-DSA-512" ≡ key_for profiles' "FN-DSA-512"
key_for-order_example =
    key_for-order profiles profiles' "FN-DSA-512" same_entries profiles-Usables
      (λ alg k l i j. profile_key alg k i ∙ sym (profile_key alg l j))
