-- ===== src/Auth/Session/Rotation.antt =====
-- A refresh token that backend/auth-service has signed, given back to it.
use Prim.Native.String.{len}
use tasktify.Prelude.{
  ◌≡◌, ◌≢◌, ◌⊎◌, inl, inr, refl, String, Option, some, Result, ok, or_error, grpc_status, str_eq,
  eq_iff, true, false, arith, ◌≤◌, ==_refl,
}
use tasktify.Prelude.Int.{ℤ, div_floor, ltb_ℤ, leb_ℤ}
use tasktify.External.Uuid.{Uuid, UuidLib, nil}
use tasktify.External.Gorm.{Gorm}
use tasktify.External.Jwt.{SigningMethod, JwtLib, IsJwtLib}
use tasktify.Grpc.{internal}
use tasktify.Jwt.Claims.{
  JwtClaims, Moment, new_claims, validate, token_use_refresh, max_jwt_compact_bytes,
}
use tasktify.Jwt.Util.{JwtUtil, use_or_access}
use tasktify.Jwt.Multi.{MultiUtil, sign, multi_util}
use tasktify.Jwt.Issued.{issued_claims}
use tasktify.Jwt.Issuance.{AreKeyPairs, sign-parse}
use tasktify.Auth.Entity.{User}
use tasktify.Auth.Repository
use tasktify.Auth.Session.{Moments, payload_of, sign_token_pair, check_user, refresh_token}

check_user-eq-ok :
    (u : UuidLib) (user_id : String) (claimed : Uuid)
    → (user_id ≡ "") ⊎ (u.parse user_id ≡ ok claimed)
    → check_user u user_id claimed ≡ ok tt
unfolding check_user
check_user-eq-ok u user_id claimed (inl blank) = rw blank refl
check_user-eq-ok u user_id claimed (inr named) = ground (arith, ==_refl claimed)

module _ {Db : Type 0} (util : JwtUtil) (g : Gorm Db User) (u : UuidLib) where
  -- What RefreshToken does once its checks are passed.
  accepted :
      (algorithm_of : String → Result String) (now : Moment) (at : Moments) (user_id token : String)
      (db : Db) (claims : JwtClaims) (user : User) (algorithm : String)
      → token ≢ ""
      → util.parse now token ≡ ok claims
      → claims.token_use ≡ token_use_refresh
      → (user_id ≡ "") ⊎ (u.parse user_id ≡ ok claims.user_id)
      → Repository.get_by_id g db claims.user_id ≡ ok user
      → algorithm_of token ≡ ok algorithm
      → refresh_token util g u algorithm_of now at user_id token db
        ≡ or_error
            (grpc_status internal "failed to generate token")
            (sign_token_pair util at user algorithm)
  unfolding refresh_token
  accepted algorithm_of now at user_id token db claims user algorithm present parsed is_use named
        stored from =
      let some_token : str_eq token "" ≡ false = ground (arith, eq_iff token "") in
      let is_refresh : str_eq claims.token_use token_use_refresh ≡ true =
        (eq_iff claims.token_use token_use_refresh).1 is_use in
      rw
        (
          some_token,
          parsed,
          is_refresh,
          check_user-eq-ok u user_id claims.user_id named,
          stored,
          from,
        )
        refl

module _ {Key : Type 0} (lib : JwtLib Key JwtClaims) (u : UuidLib)
    {Verifies : String → String → Option Key → Type 0}
    {Pairs : SigningMethod Key → Option Key → Option Key → Type 0}
    (jwt : IsJwtLib lib (λ c. c.registered) (validate u) Verifies Pairs) (m : MultiUtil Key)
    {Db : Type 0} (g : Gorm Db User) where
  -- With golang-jwt as documented, and keys that belong together: RefreshToken accepts a
  -- refresh token that was signed for a user with an id that is not nil and an address, from
  -- its issuing until it expires: if the user is still stored, the token's algorithm can be
  -- read, and the request names that user or none, it answers with what the signing of the new
  -- pair comes to; provided that the token is not empty and at most 64 KiB long.
  pub sign-refresh_token :
      (signed_at now : Moment) (at : Moments) (user stored : User)
      (algorithm user_id token from : String) (algorithm_of : String → Result String) (db : Db)
      → AreKeyPairs lib u jwt m
      → user.id ≢ nil
      → user.email ≢ ""
      → u.render user.id ≢ ""
      → sign lib u m signed_at (payload_of user algorithm token_use_refresh) ≡ ok token
      → leb_ℤ (div_floor signed_at.now 1_000_000_000) (div_floor now.now 1_000_000_000) ≡ true
      → ((expiry : ℤ)
          → (issued_claims u m signed_at
              (payload_of user algorithm token_use_refresh)).registered.expires_at
            ≡ some expiry
          → ltb_ℤ (div_floor now.now 1_000_000_000) expiry ≡ true)
      → token ≢ ""
      → len token ≤ max_jwt_compact_bytes
      → (user_id ≡ "") ⊎ (u.parse user_id ≡ ok user.id)
      → Repository.get_by_id g db user.id ≡ ok stored
      → algorithm_of token ≡ ok from
      → refresh_token (multi_util lib u m) g u algorithm_of now at user_id token db
        ≡ or_error
            (grpc_status internal "failed to generate token")
            (sign_token_pair (multi_util lib u m) at stored from)
  unfolding multi_util payload_of new_claims use_or_access
  sign-refresh_token signed_at now at user stored algorithm user_id token from algorithm_of db keys
        has_user has_email rendered signed issued unexpired present size named found alg =
      accepted (multi_util lib u m) g u algorithm_of now at user_id token db
        (issued_claims u m signed_at (payload_of user algorithm token_use_refresh)) stored from
        present
        (sign-parse lib u jwt m signed_at now (payload_of user algorithm token_use_refresh) token
          keys
          (record {
            has_user = has_user;
            has_email = has_email;
            rendered = rendered;
            known_use = inr (inr refl);
          })
          signed issued unexpired size)
        refl named found alg
