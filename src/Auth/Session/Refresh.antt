-- ===== src/Auth/Session/Refresh.antt =====
-- Who gets tokens from backend/auth-service/internal/service/auth_service.go.
use tasktify.Prelude.{
  ◌⊎◌, ◌≡◌, ◌≢◌, refl, String, List, Result, ok, err, panic, arith, str_eq, true, false, Ensures,
  Ensures-last, Ensures-step, Ensures-bind, In, eq_iff, ◌>>=◌, ◌>>◌, or_error, grpc_status, IsErr,
  guard, not, ℕ, Bool, GoError,
}
use tasktify.External.Uuid.{Uuid, UuidLib}
use tasktify.External.Gorm.{Gorm, IsGorm}
use tasktify.External.Bcrypt.{BcryptLib}
use tasktify.Grpc.{unauthenticated}
use tasktify.Jwt.Claims.{JwtClaims, Moment, token_use_refresh}
use tasktify.Jwt.Util.{JwtUtil}
use tasktify.Auth.Entity.{User}
use tasktify.Auth.Repository
use tasktify.Auth.Repository.{by_id, by_email}
use tasktify.Auth.Session.{TokenPair, Moments, sign_token_pair, sign_in, refresh_token, check_user}

-- A failed step, with its error replaced.
or_error-IsErr :
    {A B : Type 0} (code : ℕ) (message : String) (m : Result A) (f : A → Result B)
    → IsErr m
    → (or_error (grpc_status code message) m >>= f) ≡ err (grpc_status code message)
or_error-IsErr code message (ok a) f bad = absurd bad
or_error-IsErr code message (err e) f bad = refl
or_error-IsErr code message panic f bad = absurd bad

module _ {Db : Type 0} (util : JwtUtil) (g : Gorm Db User) where
  module _ (b : BcryptLib) where
    -- The search for the user and the comparison of the password.
    abbrev pub credentials : String → String → Db → Result (Unit {0})
    credentials email password db =
        Repository.get_by_email g db email >>= λ user. b.compare user.password password

    refused :
        (m : Result User) (password : String) (k : User → Result TokenPair)
        → IsErr (m >>= λ user. b.compare user.password password)
        → (or_error (grpc_status unauthenticated "invalid email or password") m >>= λ user.
            or_error
              (grpc_status unauthenticated "invalid email or password")
              (b.compare user.password password)
            >> k user)
          ≡ err (grpc_status unauthenticated "invalid email or password")
    refused (ok user) password k bad =
        or_error-IsErr unauthenticated "invalid email or password"
          (b.compare user.password password) (λ _. k user) bad
    refused (err e) password k bad = refl
    refused panic password k bad = absurd bad

    -- Where the search for the address or the comparison of the password fails, SignIn
    -- answers with one error, Unauthenticated with `invalid email or password`: an unknown
    -- address and a wrong password look alike.
    pub sign_in_opaque :
        (at : Moments) (email password algorithm : String) (db : Db)
        → IsErr (credentials email password db)
        → sign_in util g b at email password algorithm db
          ≡ err (grpc_status unauthenticated "invalid email or password")
    unfolding sign_in
    sign_in_opaque at email password algorithm db bad =
        refused (Repository.get_by_email g db email) password
          (λ user. or_error _ (sign_token_pair util at user algorithm)) bad

  module _ {rows : Db → List User} {stamp : Db → User → User} {merge : User → User → User}
      (gorm : IsGorm g rows stamp merge) where
    -- A row of the table with the address, whose password the given one matches, and whose tokens
    -- these are.
    pub record IsSignedIn (b : BcryptLib) (at : Moments) (email password algorithm : String)
        (db : Db) (pair : TokenPair) : Type 0 where
      pub user : User
      pub stored : In user (rows db)
      pub same_email : user.email ≡ email
      pub matches : b.compare user.password password ≡ ok tt
      pub signed : sign_token_pair util at user algorithm ≡ ok pair

    by_email-same : (email : String) (x : User) → by_email email x ≡ true → x.email ≡ email
    unfolding by_email
    by_email-same email x e = ground (arith, eq_iff x.email email)

    by_id-same : (id : Uuid) (x : User) → by_id id x ≡ true → x.id ≡ id
    unfolding by_id
    by_id-same id x e = ground arith

    sign_in-Ensures :
        (b : BcryptLib) (at : Moments) (email password algorithm : String) (db : Db)
        → Ensures
            (IsSignedIn b at email password algorithm db)
            (sign_in util g b at email password algorithm db)
    unfolding sign_in Repository.get_by_email
    sign_in-Ensures b at email password algorithm db =
        Ensures-step _ (g.first (by_email email) db) _ λ user p.
          Ensures-step _ (b.compare user.password password) _ λ _ q.
            Ensures-last _ (sign_token_pair util at user algorithm) λ pair r.
              let (fits, stored) = gorm.first_row _ _ p in
              record {
                user = user;
                stored = stored;
                same_email = by_email-same email user fits;
                matches = q;
                signed = r;
              }

    -- With gorm as documented: if SignIn gives tokens, a stored user has the address, the
    -- password matches the user's hash, and the tokens are those signed for that user.
    pub sign_in_sound :
        (b : BcryptLib) (at : Moments) (email password algorithm : String) (db : Db)
        (pair : TokenPair)
        → sign_in util g b at email password algorithm db ≡ ok pair
        → IsSignedIn b at email password algorithm db pair
    sign_in_sound b at email password algorithm db =
        (sign_in-Ensures b at email password algorithm db).at

    -- A refresh token that Parse accepts at that moment, for the user of the request if it names
    -- one, who is still stored; and the new tokens are for that user, with the token's algorithm.
    pub record IsRefreshed (u : UuidLib) (algorithm_of : String → Result String) (now : Moment)
        (at : Moments) (user_id token : String) (db : Db) (pair : TokenPair) : Type 0 where
      pub claims : JwtClaims
      pub parsed : util.parse now token ≡ ok claims
      pub is_refresh : claims.token_use ≡ token_use_refresh
      pub same_user : (user_id ≡ "") ⊎ (u.parse user_id ≡ ok claims.user_id)
      pub user : User
      pub stored : In user (rows db)
      pub owner : user.id ≡ claims.user_id
      pub algorithm : String
      pub from_token : algorithm_of token ≡ ok algorithm
      pub signed : sign_token_pair util at user algorithm ≡ ok pair

    check_user-ok :
        (u : UuidLib) (user_id : String) (claimed : Uuid)
        → check_user u user_id claimed ≡ ok tt
        → (user_id ≡ "") ⊎ (u.parse user_id ≡ ok claimed)
    unfolding check_user
    check_user-ok u user_id claimed e = ground (arith, eq_iff user_id "")

    guard-true : (t : Bool) (e : GoError) → guard t e ≡ ok tt → t ≡ true
    guard-true true e p = refl
    guard-true false e p = cc

    refresh_token-Ensures :
        (u : UuidLib) (algorithm_of : String → Result String) (now : Moment) (at : Moments)
        (user_id token : String) (db : Db)
        → Ensures
            (IsRefreshed u algorithm_of now at user_id token db)
            (refresh_token util g u algorithm_of now at user_id token db)
    unfolding refresh_token Repository.get_by_id
    refresh_token-Ensures u algorithm_of now at user_id token db =
        Ensures-bind (guard (not (str_eq token "")) _) _ λ _ n.
          Ensures-step _ (util.parse now token) _ λ claims p.
            Ensures-bind (guard (str_eq claims.token_use token_use_refresh) _) _ λ _ r.
              Ensures-bind (check_user u user_id claims.user_id) _ λ _ c.
                Ensures-step _ (g.first (by_id claims.user_id) db) _ λ user f.
                  Ensures-step _ (algorithm_of token) _ λ algorithm a.
                    Ensures-last _ (sign_token_pair util at user algorithm) λ pair s.
                      let (fits, stored) = gorm.first_row _ _ f in
                      record {
                        claims = claims;
                        parsed = p;
                        is_refresh = (eq_iff _ _).0 (guard-true _ _ r);
                        same_user = check_user-ok u user_id claims.user_id c;
                        user = user;
                        stored = stored;
                        owner = by_id-same claims.user_id user fits;
                        algorithm = algorithm;
                        from_token = a;
                        signed = s;
                      }

    -- With gorm as documented: if RefreshToken gives tokens, Parse accepts the given token as
    -- a refresh token at that moment, its user is the one that the request names, if it names
    -- one, and is still stored, and the new tokens are those signed for that user with the
    -- token's algorithm.
    pub refresh_token_sound :
        (u : UuidLib) (algorithm_of : String → Result String) (now : Moment) (at : Moments)
        (user_id token : String) (db : Db) (pair : TokenPair)
        → refresh_token util g u algorithm_of now at user_id token db ≡ ok pair
        → IsRefreshed u algorithm_of now at user_id token db pair
    refresh_token_sound u algorithm_of now at user_id token db =
        (refresh_token-Ensures u algorithm_of now at user_id token db).at

  -- A token that is not empty, that Parse accepts and whose use is not refresh, such as an
  -- access token, is refused by RefreshToken with Unauthenticated.
  pub access_token_refused :
      (u : UuidLib) (algorithm_of : String → Result String) (now : Moment) (at : Moments)
      (user_id token : String) (db : Db) (claims : JwtClaims)
      → token ≢ ""
      → util.parse now token ≡ ok claims
      → claims.token_use ≢ token_use_refresh
      → refresh_token util g u algorithm_of now at user_id token db
        ≡ err (grpc_status unauthenticated "invalid refresh token")
  unfolding refresh_token
  access_token_refused u algorithm_of now at user_id token db claims present parsed other =
      let some_token : str_eq token "" ≡ false = ground (arith, eq_iff token "") in
      let not_refresh : str_eq claims.token_use token_use_refresh ≡ false =
        ground (arith, eq_iff claims.token_use token_use_refresh) in
      rw (some_token, parsed, not_refresh) refl
