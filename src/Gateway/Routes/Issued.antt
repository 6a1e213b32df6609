-- ===== src/Gateway/Routes/Issued.antt =====
-- An access token that jwtutils has signed, in the header of a request to backend/gateway.
use Prim.Native.String
use Prim.Native.String.{len, slice}
use text.Mathlib.TextPositions.{starts_with-append, slice-append_right, len-append}
use tasktify.Prelude.{
  ◌≡◌, ◌≢◌, refl, ap, String, Option, some, ok, err, fiber_error, str_eq, eq_iff, true, false,
  arith, ◌≤◌,
}
use tasktify.Prelude.Int.{ℤ, div_floor, ltb_ℤ, leb_ℤ}
use tasktify.External.Uuid.{UuidLib}
use tasktify.External.Jwt.{SigningMethod, JwtLib, IsJwtLib}
use tasktify.Jwt.Claims.{
  JwtClaims, JwtPayload, Moment, new_claims, validate, token_use_access, token_use_refresh,
  max_jwt_compact_bytes,
}
use tasktify.Jwt.Util.{use_or_access}
use tasktify.Jwt.Multi.{MultiUtil, sign, parse, multi_util}
use tasktify.Jwt.Issued.{IsIssuable, issued_claims}
use tasktify.Jwt.Issuance.{AreKeyPairs, sign-parse}
use tasktify.Gateway.Middleware.{handle, trim_prefix}
use tasktify.Gateway.Routes.Access.{refresh_token_refused}

bearer_trimmed : (s : String) → trim_prefix (String.◌++◌ "Bearer " s) "Bearer " ≡ s
unfolding trim_prefix
bearer_trimmed s =
    rw (starts_with-append "Bearer " s, len-append "Bearer " s) (slice-append_right "Bearer " s)

bearer_differs : (s : String) → s ≢ String.◌++◌ "Bearer " s
bearer_differs s e = absurd (ground (arith, len-append "Bearer " s, ap len e))

bearer_filled : (s : String) → String.◌++◌ "Bearer " s ≢ ""
bearer_filled s e = absurd (ground (arith, len-append "Bearer " s, ap len e))

-- The middleware passes a token whose claims are those of an access token.
pub handle-parse :
    {Key : Type 0} (lib : JwtLib Key JwtClaims) (u : UuidLib) (m : MultiUtil Key) (now : Moment)
    (token : String) (claims : JwtClaims)
    → parse lib u m now token ≡ ok claims
    → claims.token_use ≡ token_use_access
    → handle (multi_util lib u m) u now (String.◌++◌ "Bearer " token)
      ≡ ok (record { user_id = some (u.render claims.user_id); user_email = some claims.email })
unfolding handle multi_util
handle-parse lib u m now token claims parsed access =
    let present : str_eq (String.◌++◌ "Bearer " token) "" ≡ false =
      ground (arith, eq_iff (String.◌++◌ "Bearer " token) "", bearer_filled token) in
    let trimmed : str_eq token (String.◌++◌ "Bearer " token) ≡ false =
      ground (arith, eq_iff token (String.◌++◌ "Bearer " token), bearer_differs token) in
    rw (present, bearer_trimmed token, trimmed, parsed, access) refl

-- The middleware refuses a token whose claims are those of a refresh token.
pub handle-parse_refresh :
    {Key : Type 0} (lib : JwtLib Key JwtClaims) (u : UuidLib) (m : MultiUtil Key) (now : Moment)
    (token : String) (claims : JwtClaims)
    → parse lib u m now token ≡ ok claims
    → claims.token_use ≡ token_use_refresh
    → handle (multi_util lib u m) u now (String.◌++◌ "Bearer " token)
      ≡ err (fiber_error 401 "invalid token type")
unfolding multi_util
handle-parse_refresh lib u m now token claims parsed is_refresh =
    refresh_token_refused (multi_util lib u m) u now (String.◌++◌ "Bearer " token) claims
      (bearer_filled token) (rw (bearer_trimmed token) (bearer_differs token))
      (rw (bearer_trimmed token) parsed) is_refresh

module _ {Key : Type 0} (lib : JwtLib Key JwtClaims) (u : UuidLib)
    {Verifies : String → String → Option Key → Type 0}
    {Pairs : SigningMethod Key → Option Key → Option Key → Type 0}
    (jwt : IsJwtLib lib (λ c. c.registered) (validate u) Verifies Pairs) (m : MultiUtil Key) where
  -- With golang-jwt as documented, and keys that belong together: an access token that Sign issues,
  -- sent after `Bearer ` from its issuing until it expires to a gateway with the same
  -- configurations, passes the middleware, which names the payload's user to the handlers; provided
  -- that it is at most 64 KiB long.
  pub sign-handle :
      (at now : Moment) (payload : JwtPayload) (token : String)
      → AreKeyPairs lib u jwt m
      → IsIssuable u payload
      → payload.token_use ≡ token_use_access
      → sign lib u m at payload ≡ ok token
      → leb_ℤ (div_floor at.now 1_000_000_000) (div_floor now.now 1_000_000_000) ≡ true
      → ((expiry : ℤ)
          → (issued_claims u m at payload).registered.expires_at ≡ some expiry
          → ltb_ℤ (div_floor now.now 1_000_000_000) expiry ≡ true)
      → len token ≤ max_jwt_compact_bytes
      → handle (multi_util lib u m) u now (String.◌++◌ "Bearer " token)
        ≡ ok (record { user_id = some (u.render payload.user_id); user_email = some payload.email })
  unfolding new_claims use_or_access
  sign-handle at now payload token keys issuable access signed issued unexpired size =
      handle-parse lib u m now token (issued_claims u m at payload)
        (sign-parse lib u jwt m at now payload token keys issuable signed issued unexpired size)
        (rw access refl)
