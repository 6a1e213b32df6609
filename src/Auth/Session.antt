-- ===== src/Auth/Session.antt =====
-- backend/auth-service/internal/service/auth_service.go: sign-in, the rotation of a refresh token
-- and Verify. The clock and the ids of the tokens are given as moments; the timings and the
-- runtime statistics that the methods return beside the tokens are in Auth/Metering.antt.
pub mod Refresh
pub mod Rotation
use tasktify.Prelude.{
  String, Result, ok, err, ◌>>=◌, ◌>>◌, or_error, grpc_status, if◌then◌else◌, str_eq, ◌==◌, guard,
  not, plain, Bool, true,
}
use tasktify.External.Uuid.{Uuid, UuidLib}
use tasktify.External.Gorm.{Gorm}
use tasktify.External.Bcrypt.{BcryptLib}
use tasktify.Grpc.{invalid_argument, internal, unauthenticated}
use tasktify.Jwt.Claims.{JwtClaims, JwtPayload, Moment, token_use_access, token_use_refresh}
use tasktify.Jwt.Util.{JwtUtil}
use tasktify.Auth.Entity.{User}
use tasktify.Auth.Repository

-- The access token and the refresh token.
abbrev pub TokenPair : Type 0
TokenPair = String × String

-- The moments of the two calls of Sign.
abbrev pub Moments : Type 0
Moments = Moment × Moment

unfoldable pub payload_of : User → String → String → JwtPayload
payload_of user algorithm token_use = record {
  user_id = user.id;
  email = user.email;
  algorithm = algorithm;
  token_use = token_use;
}

-- The checks of RefreshToken on the user id of a request, if it has one.
unfoldable pub check_user : UuidLib → String → Uuid → Result (Unit {0})
check_user u user_id claimed =
    if str_eq user_id ""
    then ok tt
    else or_error (grpc_status invalid_argument "invalid user id") (u.parse user_id)
      >>= λ parsed_id.
          guard (parsed_id == claimed) (grpc_status unauthenticated "refresh token user mismatch")

module _ (util : JwtUtil) where
  unfoldable pub sign_token_pair : Moments → User → String → Result TokenPair
  unfolding payload_of
  sign_token_pair (at₁, at₂) user algorithm = do
    access_token ←
        or_error (plain "sign access token")
          (util.sign at₁ (payload_of user algorithm token_use_access))
    refresh_token ←
        or_error (plain "sign refresh token")
          (util.sign at₂ (payload_of user algorithm token_use_refresh))
    ok (access_token, refresh_token)

  unfoldable pub verify : Moment → String → Result (Unit {0})
  verify at token =
      or_error (grpc_status unauthenticated "invalid token") (util.parse at token) >>= λ _. ok tt

  module _ {Db : Type 0} (g : Gorm Db User) where
    unfoldable pub sign_in : BcryptLib → Moments → String → String → String → Db → Result TokenPair
    sign_in b at email password algorithm db = do
      user ←
          or_error (grpc_status unauthenticated "invalid email or password")
            (Repository.get_by_email g db email)
      or_error (grpc_status unauthenticated "invalid email or password")
          (b.compare user.password password)
      or_error (grpc_status internal "failed to generate token") (sign_token_pair at user algorithm)

    -- `algorithm_of` is AlgorithmFromToken of backend/pkg/utils/jwtutils/jwt.go.
    unfoldable pub refresh_token :
        UuidLib
        → (String → Result String)
        → Moment
        → Moments
        → String
        → String
        → Db
        → Result TokenPair
    unfolding check_user
    refresh_token u algorithm_of now at user_id token db = do
      guard (not (str_eq token "")) (grpc_status invalid_argument "refresh token required")
      claims ← or_error (grpc_status unauthenticated "invalid refresh token") (util.parse now token)
      guard (str_eq claims.token_use token_use_refresh)
          (grpc_status unauthenticated "invalid refresh token")
      check_user u user_id claims.user_id
      user ←
          or_error (grpc_status unauthenticated "invalid refresh token")
            (Repository.get_by_id g db claims.user_id)
      algorithm ←
          or_error (grpc_status unauthenticated "invalid refresh token") (algorithm_of token)
      or_error (grpc_status internal "failed to generate token") (sign_token_pair at user algorithm)
