-- ===== src/Gateway/Middleware.antt =====
-- backend/gateway/internal/delivery/http/middleware/auth_middleware.go. The request is seen through
-- its header Authorization, which is empty where it is missing.
use Prim.Native.String.{len, slice}
use tasktify.Prelude.{
  String, some, Result, ok, ◌>>=◌, ◌>>◌, or_error, guard, fiber_error, str_eq, if◌then◌else◌, not,
  ◌||◌,
}
use text.Mathlib.Text.{starts_with}
use tasktify.External.Uuid.{UuidLib}
use tasktify.Jwt.Claims.{Moment, token_use_access}
use tasktify.Jwt.Util.{JwtUtil}
use tasktify.Gateway.Http.{Locals}

-- strings.TrimPrefix
unfoldable pub trim_prefix : String → String → String
trim_prefix s prefix = if starts_with s prefix then slice s (len prefix) (len s) else s

unfoldable pub handle : JwtUtil → UuidLib → Moment → String → Result Locals
unfolding trim_prefix
handle util u at header = do
  guard (not (str_eq header "")) (fiber_error 401 "authorization header required")
  guard (not (str_eq (trim_prefix header "Bearer ") header))
      (fiber_error 401 "invalid authorization format")
  claims ←
      or_error (fiber_error 401 "invalid or expired token")
        (util.parse at (trim_prefix header "Bearer "))
  guard (str_eq claims.token_use "" || str_eq claims.token_use token_use_access)
      (fiber_error 401 "invalid token type")
  ok (record { user_id = some (u.render claims.user_id); user_email = some claims.email })
