-- ===== src/Jwt/Util.antt =====
-- The interface JwtUtil of backend/pkg/utils/jwtutils/jwt.go, what its two implementations share,
-- and the first of them, jwtUtil, which has one method and one key.
use Prim.Native.String.{len}
use tasktify.Prelude.{
  String, Option, none, some, List, [], ◌∷◌, Result, ok, err, plain, ◌>>=◌, ◌>>◌, str_eq,
  if◌then◌else◌, ltb,
}
use tasktify.Prelude.Int.{ℤ, div_floor}
use tasktify.External.Uuid.{UuidLib}
use tasktify.External.Jwt.{Header, text, SigningMethod, Token, JwtLib}
use tasktify.Jwt.Claims.{
  JwtClaims, JwtPayload, Moment, new_claims, token_type_for_use, parser_options,
  max_jwt_compact_bytes, token_use_access,
}
use tasktify.Jwt.Header.{validate_token_type_header}

pub record JwtUtil : Type 0 where
  pub sign : Moment → JwtPayload → Result String
  pub parse : Moment → String → Result JwtClaims

-- The header after `token.Header["typ"] = TokenTypeForUse(tokenUse)`.
unfoldable pub token_header : String → String → Header
token_header alg token_use = ("typ", text (token_type_for_use token_use)) ∷ ("alg", text alg) ∷ []

-- `if tokenUse == "" { tokenUse = TokenUseAccess }`
unfoldable pub use_or_access : String → String
use_or_access token_use = if str_eq token_use "" then token_use_access else token_use

-- What both Parse methods do with a parsed token.
unfoldable pub accept : Token JwtClaims → Result JwtClaims
accept t =
    if t.valid
    then validate_token_type_header t.header t.claims.token_use >> ok t.claims
    else err (plain "token is not valid")

module _ {Key : Type 0} (lib : JwtLib Key JwtClaims) (u : UuidLib) where
  -- Sign, from NewWithClaims on.
  unfoldable pub sign_with :
      SigningMethod Key → Option Key → String → String → ℤ → Moment → JwtPayload → Result String
  unfolding token_header use_or_access
  sign_with method key issuer audience duration at payload =
      let token_use = use_or_access payload.token_use in
      lib.signed_string method (token_header method.alg token_use)
        (new_claims u at issuer audience duration payload token_use) key

  -- Parse, with the allowed algorithms and the key function of the implementation.
  unfoldable pub parse_with :
      String
      → String
      → List String
      → (Token JwtClaims → Result (Option Key))
      → Moment
      → String
      → Result JwtClaims
  unfolding accept
  parse_with issuer audience algs keyfunc at token =
      if ltb max_jwt_compact_bytes (len token)
      then err (plain "token exceeds maximum compact size")
      else lib.parse (div_floor at.now 1_000_000_000) (parser_options issuer audience algs) keyfunc
          token
        >>= accept

-- jwtUtil; `verify_key` is a value of the library's type of keys.
pub record SingleUtil (Key : Type 0) : Type 0 where
  pub allowed_algs : List String
  pub issuer : String
  pub audience : String
  pub verify_key : Key
  pub method : Option (SigningMethod Key)
  pub duration : ℤ

module _ {Key : Type 0} (lib : JwtLib Key JwtClaims) (u : UuidLib) (j : SingleUtil Key) where
  unfoldable pub sign : Moment → JwtPayload → Result String
  unfolding sign_with
  sign at payload = elim j.method [
    | none ↦ err (plain "signing method not configured, use NewJwtUtilWithSigner for signing")
    | some method ↦ sign_with lib u method none j.issuer j.audience j.duration at payload
  ]

  unfoldable pub parse : Moment → String → Result JwtClaims
  unfolding parse_with
  parse at token =
      parse_with lib u j.issuer j.audience j.allowed_algs (λ t. ok (some j.verify_key)) at token

  unfoldable pub single_util : JwtUtil
  unfolding sign parse
  single_util = record { sign = sign; parse = parse }
