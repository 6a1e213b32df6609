-- ===== src/Gateway/Routes/Access.antt =====
-- Who passes the middleware of
-- backend/gateway/internal/delivery/http/middleware/auth_middleware.go.
use tasktify.Prelude.{
  ◌≡◌, ◌≢◌, ◌⊎◌, refl, String, some, ok, err, arith, str_eq, true, false, Ensures, Ensures-ok,
  Ensures-step, Ensures-bind, eq_iff, fiber_error, GoError, guard, Bool, not, ◌||◌,
}
use tasktify.External.Uuid.{UuidLib}
use tasktify.Jwt.Claims.{JwtClaims, Moment, token_use_access, token_use_refresh}
use tasktify.Jwt.Util.{JwtUtil}
use tasktify.Gateway.Http.{Locals}
use tasktify.Gateway.Middleware.{handle, trim_prefix}

-- The token after `Bearer `, accepted at that moment as an access token, or with no use, whose user
-- the handlers will act for.
pub record IsPassed (util : JwtUtil) (u : UuidLib) (at : Moment) (header : String) (l : Locals)
    : Type 0 where
  pub claims : JwtClaims
  pub prefixed : trim_prefix header "Bearer " ≢ header
  pub parsed : util.parse at (trim_prefix header "Bearer ") ≡ ok claims
  pub access : (claims.token_use ≡ "") ⊎ (claims.token_use ≡ token_use_access)
  pub user : l.user_id ≡ some (u.render claims.user_id)
  pub email : l.user_email ≡ some claims.email

guard-true : (t : Bool) (e : GoError) → guard t e ≡ ok tt → t ≡ true
guard-true true e p = refl
guard-true false e p = cc

module _ (util : JwtUtil) (u : UuidLib) (at : Moment) (header : String) where
  handle-Ensures : Ensures (IsPassed util u at header) (handle util u at header)
  unfolding handle
  handle-Ensures = Ensures-bind (guard (not (str_eq header "")) _) _ λ _ n.
      Ensures-bind (guard (not (str_eq (trim_prefix header "Bearer ") header)) _) _ λ _ b.
        Ensures-step _ (util.parse at (trim_prefix header "Bearer ")) _ λ claims p.
          Ensures-bind
            (guard (str_eq claims.token_use "" || str_eq claims.token_use token_use_access) _) _
            λ _ a. Ensures-ok _ (record {
              claims = claims;
              prefixed =
                  ground (arith, guard-true _ _ b, eq_iff (trim_prefix header "Bearer ") header);
              parsed = p;
              access = ground (
                arith,
                guard-true _ _ a,
                eq_iff claims.token_use "",
                eq_iff claims.token_use token_use_access,
              );
              user = refl;
              email = refl;
            })

  -- If the middleware lets a request pass, Parse accepts the token after `Bearer `, its use is
  -- access or none, and the handlers are given the id and the address of the token's user.
  pub handle_sound : (l : Locals) → handle util u at header ≡ ok l → IsPassed util u at header l
  handle_sound = handle-Ensures.at

  -- A refresh token that Parse accepts, after `Bearer ` in the header, is refused by the
  -- middleware with the status 401.
  pub refresh_token_refused :
      (claims : JwtClaims)
      → header ≢ ""
      → trim_prefix header "Bearer " ≢ header
      → util.parse at (trim_prefix header "Bearer ") ≡ ok claims
      → claims.token_use ≡ token_use_refresh
      → handle util u at header ≡ err (fiber_error 401 "invalid token type")
  unfolding handle
  refresh_token_refused claims present prefixed parsed is_refresh =
      let some_header : str_eq header "" ≡ false = ground (arith, eq_iff header "") in
      let trimmed : str_eq (trim_prefix header "Bearer ") header ≡ false =
        ground (arith, eq_iff (trim_prefix header "Bearer ") header) in
      rw (some_header, trimmed, parsed, is_refresh) refl
