-- ===== src/Bootstrap/Login.antt =====
-- Proofs: what the tokens are good for that a user of backend/auth-service signs in for.
use Prim.Native.String
use Prim.Native.String.{len}
use tasktify.Prelude.{
  String, Option, some, List, Result, ok, err, ◌≡◌, ◌≢◌, ◌≤◌, refl, In, fiber_error, Ensures,
  Ensures-step, Ensures-ok, inl, inr,
}
use tasktify.External.Uuid.{UuidLib, nil}
use tasktify.External.Gorm.{Gorm, IsGorm}
use tasktify.External.Bcrypt.{BcryptLib}
use tasktify.External.Jwt.{Bytes, SigningMethod, JwtLib, IsJwtLib}
use tasktify.Jwt.Claims.{
  JwtClaims, Moment, validate, max_jwt_compact_bytes, token_use_access, token_use_refresh,
  new_claims,
}
use tasktify.Jwt.Util.{JwtUtil, use_or_access}
use tasktify.Jwt.Multi.{MultiUtil, multi_util}
use tasktify.Jwt.Issued.{IsIssuable, IsCurrent}
use tasktify.Jwt.Loader.{KeyLib}
use tasktify.Jwt.Loader.Methods.{HasNames}
use tasktify.Gateway.Middleware.{handle}
use tasktify.Gateway.Routes.Issued.{handle-parse_refresh}
use tasktify.Auth.Entity.{User}
use tasktify.Auth.Session.{TokenPair, Moments, payload_of, sign_token_pair, sign_in}
use tasktify.Auth.Session.Refresh.{sign_in_sound}
use tasktify.Bootstrap.{Settings, auth_bootstrap, gateway_bootstrap}
use tasktify.Bootstrap.Passes.{IsTight, KeysPair, bootstrap-handle, bootstrap-parse}

-- The two tokens of a pair are signed for the two uses.
sign_token_pair-Ensures :
    (util : JwtUtil) (at : Moments) (user : User) (algorithm : String)
    → Ensures
        (λ (pair : TokenPair).
          (util.sign (at.0) (payload_of user algorithm token_use_access) ≡ ok (pair.0))
          × (util.sign (at.1) (payload_of user algorithm token_use_refresh) ≡ ok (pair.1)))
        (sign_token_pair util at user algorithm)
unfolding sign_token_pair payload_of
sign_token_pair-Ensures util at user algorithm =
    Ensures-step _ (util.sign (at.0) _) _
      λ access a. Ensures-step _ (util.sign (at.1) _) _ λ refresh r. Ensures-ok _ (a, r)

-- A stored user that tokens can be issued for.
pub record IsPresentable (u : UuidLib) (user : User) : Type 0 where
  pub has_id : user.id ≢ nil
  pub has_email : user.email ≢ ""
  pub rendered : u.render user.id ≢ ""

payload_of-IsIssuable :
    (u : UuidLib) (user : User) (algorithm : String)
    → IsPresentable u user
    → IsIssuable u (payload_of user algorithm token_use_access)
      × IsIssuable u (payload_of user algorithm token_use_refresh)
unfolding payload_of
payload_of-IsIssuable u user algorithm p = (
  record {
    has_user = p.has_id;
    has_email = p.has_email;
    rendered = p.rendered;
    known_use = inr (inl refl);
  },
  record {
    has_user = p.has_id;
    has_email = p.has_email;
    rendered = p.rendered;
    known_use = inr (inr refl);
  },
)

-- Someone whose password the stored user with the address has, and whose tokens the gateway reads:
-- with the access token that user passes, with the refresh token nobody.
pub record IsLoggedIn {Key Db : Type 0} (lib : JwtLib Key JwtClaims) (u : UuidLib)
    (m' : MultiUtil Key) (b : BcryptLib) (rows : Db → List User) (now : Moment)
    (email password : String) (db : Db) (pair : TokenPair) : Type 0 where
  pub user : User
  pub stored : In user (rows db)
  pub same_email : user.email ≡ email
  pub matches : b.compare user.password password ≡ ok tt
  pub passes :
      handle (multi_util lib u m') u now (String.◌++◌ "Bearer " (pair.0))
      ≡ ok (record { user_id = some (u.render user.id); user_email = some email })
  pub refused :
      handle (multi_util lib u m') u now (String.◌++◌ "Bearer " (pair.1))
      ≡ err (fiber_error 401 "invalid token type")

module _ {Key : Type 0} (k : KeyLib Key) (files : String → String → Result Bytes) (s : Settings)
    (names : HasNames k) (lib : JwtLib Key JwtClaims) (u : UuidLib)
    {Verifies : String → String → Option Key → Type 0}
    {Pairs : SigningMethod Key → Option Key → Option Key → Type 0}
    (jwt : IsJwtLib lib (λ c. c.registered) (validate u) Verifies Pairs) {Db : Type 0}
    (g : Gorm Db User) {rows : Db → List User} {stamp : Db → User → User}
    {merge : User → User → User} (gorm : IsGorm g rows stamp merge) (b : BcryptLib) where
  -- With golang-jwt and gorm as documented, and methods with their registered names: the
  -- auth-service and the gateway have started with the same settings, whose list of algorithms has
  -- no white space and no empty part, and with one directory of keys, in which private and public
  -- keys belong together; every stored user has an id that is not nil, whose text is not empty, and
  -- an address. Then whoever SignIn of the auth-service gives tokens has the password of a stored
  -- user with the address; and from the issuing of both tokens until they expire, the access token
  -- after `Bearer ` passes the middleware of the gateway, which names that user to the handlers,
  -- and the refresh token is refused with the status 401; provided that both are at most 64 KiB
  -- long.
  pub sign_in-handle :
      (m m' benchmark : MultiUtil Key) (at : Moments) (now : Moment)
      (email password algorithm : String) (db : Db) (pair : TokenPair)
      → IsTight s.jwt_allowed_algs
      → auth_bootstrap k files s ≡ ok m
      → gateway_bootstrap k files s ≡ ok (m', benchmark)
      → KeysPair k files s names lib u jwt
      → ((user : User) → In user (rows db) → IsPresentable u user)
      → ((user : User)
          → IsCurrent u m (payload_of user algorithm token_use_access) (at.0) now
            × IsCurrent u m (payload_of user algorithm token_use_refresh) (at.1) now)
      → (len (pair.0) ≤ max_jwt_compact_bytes) × (len (pair.1) ≤ max_jwt_compact_bytes)
      → sign_in (multi_util lib u m) g b at email password algorithm db ≡ ok pair
      → IsLoggedIn lib u m' b rows now email password db pair
  unfolding payload_of multi_util new_claims use_or_access
  sign_in-handle m m' benchmark at now email password algorithm db pair tight auth gateway pairs
        presentable current small signed_in =
      let i =
        sign_in_sound (multi_util lib u m) g gorm b at email password algorithm db pair signed_in in
      let signed =
        (sign_token_pair-Ensures (multi_util lib u m) at i.user algorithm).at pair i.signed in
      let issuable = payload_of-IsIssuable u i.user algorithm (presentable i.user i.stored) in
      let fresh = current i.user in
      record {
        user = i.user;
        stored = i.stored;
        same_email = i.same_email;
        matches = i.matches;
        passes = rw (← i.same_email) (
            bootstrap-handle k files s names lib u jwt m m' benchmark (at.0) now _ (pair.0) tight
              auth gateway pairs issuable.0 refl signed.0 fresh.0 small.0);
        refused =
            handle-parse_refresh lib u m' now (pair.1) _
              (bootstrap-parse k files s names lib u jwt m m' benchmark (at.1) now _ (pair.1) tight
                auth gateway pairs issuable.1 signed.1 fresh.1 small.1)
              refl;
      }
