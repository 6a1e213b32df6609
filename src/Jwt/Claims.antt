-- ===== src/Jwt/Claims.antt =====
-- backend/pkg/utils/jwtutils/jwt.go, lines 15 to 115: claims, their validation, parser options and
-- names of algorithms.
use tasktify.Prelude.{
  ℕ, String, some, Bool, List, [], ◌∷◌, ◌++◌, Result, ok, err, plain, if◌then◌else◌, str_eq, ◌==◌,
  ◌||◌, ◌&&◌, not, contains, ◌*◌,
}
use tasktify.Prelude.Int.{ℤ, pos, ◌+ℤ◌, ◌*ℤ◌, wrap64, div_floor}
use tasktify.External.Uuid.{Uuid, UuidLib, nil}
use tasktify.External.Jwt.{
  RegisteredClaims, ParserOption, with_valid_methods, with_issuer, with_issued_at, with_audience,
}

pub record JwtClaims : Type 0 where
  pub registered : RegisteredClaims
  pub open registered use {subject}
  pub user_id : Uuid
  pub email : String
  pub token_use : String

pub record JwtPayload : Type 0 where
  pub user_id : Uuid
  pub email : String
  pub algorithm : String
  pub token_use : String

abbrev pub token_use_access : String
token_use_access = "access"

abbrev pub token_use_refresh : String
token_use_refresh = "refresh"

abbrev pub token_type_access : String
token_type_access = "at+jwt"

abbrev pub token_type_refresh : String
token_type_refresh = "rt+jwt"

abbrev pub max_jwt_compact_bytes : ℕ
max_jwt_compact_bytes = 64 * 1024

-- JWTClaims.Validate
unfoldable pub validate : UuidLib → JwtClaims → Result (Unit {0})
validate u c =
    if c.user_id == nil
    then err (plain "user_id claim is required")
    else if str_eq c.email ""
    then err (plain "email claim is required")
    else if not (str_eq c.token_use token_use_access) && not (str_eq c.token_use token_use_refresh)
    then err (plain "token_use claim is invalid")
    else if str_eq c.subject ""
    then err (plain "sub claim is required")
    else if not (str_eq c.subject (u.render c.user_id))
    then err (plain "sub claim must match user_id")
    else ok tt

unfoldable pub audience_claim : String → List String
audience_claim audience = if str_eq audience "" then [] else audience ∷ []

unfoldable pub parser_options : String → String → List String → List ParserOption
parser_options issuer audience algs =
    let opts = with_valid_methods algs ∷ with_issuer issuer ∷ with_issued_at ∷ [] in
    if str_eq audience "" then opts else opts ++ with_audience audience ∷ []

unfoldable pub token_type_for_use : String → String
token_type_for_use token_use =
    if str_eq token_use token_use_refresh then token_type_refresh else token_type_access

abbrev pub alg_fndsa_512 : String
alg_fndsa_512 = "FN-DSA-512"

-- The names in the configuration that stand for FN-DSA-512 in a token.
unfoldable pub is_fndsa_512_name : String → Bool
is_fndsa_512_name alg =
    str_eq alg "FN-DSA-512"
    || str_eq alg "FN-DSA-Precomputed-512"
    || str_eq alg "Falcon-512"
    || str_eq alg "Falcon-Precomputed-512"

unfoldable pub header_alg_for_config_alg : String → String
unfolding is_fndsa_512_name
header_alg_for_config_alg alg = if is_fndsa_512_name alg then alg_fndsa_512 else alg

-- The loop of normalizeAllowedAlgs; `seen` and `out` hold the same names, so `out` serves as both.
unfoldable pub normalize_from : List String → List String → List String
unfolding header_alg_for_config_alg
normalize_from out [] = out
normalize_from out (alg ∷ algs) =
    let header_alg = header_alg_for_config_alg alg in
    normalize_from (if contains header_alg out then out else out ++ header_alg ∷ []) algs

unfoldable pub normalize_allowed_algs : List String → List String
unfolding normalize_from
normalize_allowed_algs algs = normalize_from [] algs

-- What Sign reads from its surroundings: time.Now() in nanoseconds, and uuid.NewString().
pub record Moment : Type 0 where
  pub now : ℤ
  pub new_id : String

-- The claims that both Sign methods build. Dates are cut to seconds (jwt.NewNumericDate), and
-- `time.Duration(duration) * time.Minute` wraps like an int64.
unfoldable pub new_claims : UuidLib → Moment → String → String → ℤ → JwtPayload → String → JwtClaims
unfolding audience_claim
new_claims u at issuer audience duration payload token_use = record {
  registered = record {
    id = at.new_id;
    subject = u.render payload.user_id;
    issuer = issuer;
    audience = audience_claim audience;
    issued_at = some (div_floor at.now 1_000_000_000);
    expires_at = some (div_floor (at.now +ℤ wrap64 (duration *ℤ pos 60_000_000_000)) 1_000_000_000);
  };
  user_id = payload.user_id;
  email = payload.email;
  token_use = token_use;
}
