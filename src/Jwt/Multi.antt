-- ===== src/Jwt/Multi.antt =====
-- multiAlgJwtUtil of backend/pkg/utils/jwtutils/jwt.go: signing and verification with a key for
-- each configured algorithm. Go visits a map in any order: the list of configurations is the order
-- of one visit, and a value `none` is a nil pointer.
use tasktify.Prelude.{
  String, Option, none, some, List, [], ◌∷◌, ◌++◌, Result, ok, err, panic, plain, ◌>>=◌, str_eq,
  if◌then◌else◌, contains, lookup,
}
use mathlib.Core.Option
use tasktify.Prelude.Int.{ℤ}
use tasktify.External.Uuid.{UuidLib}
use tasktify.External.Jwt.{SigningMethod, JwtLib}
use tasktify.Jwt.Claims.{JwtClaims, JwtPayload, Moment, header_alg_for_config_alg}
use tasktify.Jwt.Util.{JwtUtil, sign_with, parse_with}

pub record AlgConfig (Key : Type 0) : Type 0 where
  pub method : Option (SigningMethod Key)
  pub sign_key : Option Key
  pub verify_key : Option Key

abbrev pub Configs : Type 0 → Type 0
Configs Key = List (String × Option (AlgConfig Key))

pub record MultiUtil (Key : Type 0) : Type 0 where
  pub issuer : String
  pub audience : String
  pub duration : ℤ
  pub default_alg : String
  pub configs : Configs Key

module _ {Key : Type 0} where
  -- `cfg.Method.Alg()`, which panics on a nil configuration and on a nil method.
  unfoldable pub alg_of : Option (AlgConfig Key) → Result String
  alg_of none = panic
  alg_of (some cfg) = elim cfg.method [ none ↦ panic | some m ↦ ok m.alg ]

  -- `none` is the answer `nil, false`.
  unfoldable pub config_for_header_alg : Configs Key → String → Result (Option (AlgConfig Key))
  unfolding alg_of
  config_for_header_alg [] header_alg = ok none
  config_for_header_alg ((_, cfg) ∷ configs) header_alg = alg_of cfg >>= λ alg.
      if str_eq alg header_alg then ok cfg else config_for_header_alg configs header_alg

  -- A hit in the map is returned as it is, nil or not; `ok none` is the answer `nil, false`.
  unfoldable pub config_for_sign_alg :
      Configs Key → String → Result (Option (Option (AlgConfig Key)))
  unfolding config_for_header_alg lookup
  config_for_sign_alg configs alg = elim (lookup alg configs) [
    | some cfg ↦ ok (some cfg)
    | none ↦
        if str_eq alg (header_alg_for_config_alg alg)
        then (config_for_header_alg configs alg >>= λ found. ok (Option.map some found))
        else ok none
  ]

  -- `if _, ok := seen[alg]; ok { continue }`, and a nil method is skipped.
  unfoldable pub add_alg : List String → Option (SigningMethod Key) → List String
  add_alg algs none = algs
  add_alg algs (some m) = if contains m.alg algs then algs else algs ++ m.alg ∷ []

  -- The loop of allowedHeaderAlgs; `seen` and `algs` hold the same names, so `algs` serves as both.
  unfoldable pub allowed_from : List String → Configs Key → List String
  unfolding add_alg
  allowed_from algs [] = algs
  allowed_from algs ((_, none) ∷ configs) = allowed_from algs configs
  allowed_from algs ((_, some cfg) ∷ configs) = allowed_from (add_alg algs cfg.method) configs

  unfoldable pub allowed_header_algs : Configs Key → List String
  unfolding allowed_from
  allowed_header_algs configs = allowed_from [] configs

  unfoldable pub verify_key_of : Option (AlgConfig Key) → Result (Option Key)
  verify_key_of none = err (plain "no key configured for algorithm")
  verify_key_of (some cfg) = ok cfg.verify_key

  -- The key function of Parse, over the visit that this call makes.
  unfoldable pub key_for : Configs Key → String → Result (Option Key)
  unfolding config_for_header_alg verify_key_of
  key_for configs alg = config_for_header_alg configs alg >>= verify_key_of

module _ {Key : Type 0} (lib : JwtLib Key JwtClaims) (u : UuidLib) (m : MultiUtil Key) where
  -- `jwt.NewWithClaims(cfg.Method, …)` reads the method's name.
  unfoldable pub sign_config : Option (AlgConfig Key) → Moment → JwtPayload → Result String
  unfolding sign_with
  sign_config none at payload = panic
  sign_config (some cfg) at payload = elim cfg.method [
    | none ↦ panic
    | some method ↦ sign_with lib u method cfg.sign_key m.issuer m.audience m.duration at payload
  ]

  unfoldable pub sign_found : Option (Option (AlgConfig Key)) → Moment → JwtPayload → Result String
  unfolding sign_config
  sign_found none at payload = err (plain "unsupported algorithm")
  sign_found (some cfg) at payload = sign_config cfg at payload

  unfoldable pub sign : Moment → JwtPayload → Result String
  unfolding sign_found config_for_sign_alg
  sign at payload =
      let alg = if str_eq payload.algorithm "" then m.default_alg else payload.algorithm in
      config_for_sign_alg m.configs alg >>= λ found. sign_found found at payload

  unfoldable pub parse : Moment → String → Result JwtClaims
  unfolding parse_with key_for allowed_header_algs
  parse at token =
      parse_with lib u m.issuer m.audience (allowed_header_algs m.configs)
        (λ t. key_for m.configs t.alg) at token

  unfoldable pub multi_util : JwtUtil
  unfolding sign parse
  multi_util = record { sign = sign; parse = parse }

-- AlgorithmFromToken
unfoldable pub algorithm_from_token : {Key : Type 0} → JwtLib Key JwtClaims → String → Result String
algorithm_from_token lib token = lib.unverified_alg token >>= λ alg. elim alg [
  | none ↦ err (plain "token algorithm unavailable")
  | some name ↦ ok name
]
