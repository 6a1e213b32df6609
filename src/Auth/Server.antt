-- ===== src/Auth/Server.antt =====
-- backend/auth-service/internal/delivery/grpc/server: user_server.go and auth_server.go. The
-- trailers with the timings are in Auth/Metering.antt.
use tasktify.Prelude.{String, List, [], ◌∷◌, ◌++◌, Result, ok, ◌>>=◌}
use tasktify.External.Uuid.{UuidLib}
use tasktify.External.Gorm.{Gorm}
use tasktify.External.Bcrypt.{BcryptLib}
use tasktify.Times.{of_unix_milli, timestamp}
use tasktify.Jwt.Claims.{Moment}
use tasktify.Jwt.Util.{JwtUtil}
use tasktify.Auth.Entity.{User, CreateUserRequest, UpdateUserRequest, UserModel}
use tasktify.Auth.Users
use tasktify.Auth.Session
use tasktify.Auth.Session.{TokenPair, Moments}

-- model.Auth
pub record AuthReply : Type 0 where
  pub token_type : String
  pub access_token : String
  pub refresh_token : String

unfoldable pub auth_reply : TokenPair → AuthReply
auth_reply (access, refresh) = record {
  token_type = "Bearer";
  access_token = access;
  refresh_token = refresh;
}

unfoldable pub to_user_model : UuidLib → User → UserModel
to_user_model u x = record {
  id = u.render x.id;
  name = x.name;
  email = x.email;
  created_at = timestamp (of_unix_milli x.created_at);
  updated_at = timestamp (of_unix_milli x.updated_at);
}

-- The loop of GetAll: `usersResponse = append(usersResponse, …)`.
unfoldable pub to_user_models : UuidLib → List User → List UserModel → List UserModel
to_user_models u [] out = out
to_user_models u (x ∷ xs) out = to_user_models u xs (out ++ to_user_model u x ∷ [])

module _ (u : UuidLib) {Db : Type 0} (g : Gorm Db User) (b : BcryptLib) where
  unfoldable pub create : CreateUserRequest → Db → Result (Unit {0}) × Db
  create request db = Users.create u b g request db

  unfoldable pub update : UpdateUserRequest → Db → Result (Unit {0}) × Db
  update request db = Users.update u b g request db

  unfoldable pub delete : String → Db → Result (Unit {0}) × Db
  delete id db = Users.delete u b g id db

  unfoldable pub get : String → Db → Result UserModel
  unfolding to_user_model
  get id db = Users.get u b g id db >>= λ x. ok (to_user_model u x)

  unfoldable pub get_all : Db → Result (List UserModel)
  unfolding to_user_models
  get_all db = Users.get_all u b g db >>= λ xs. ok (to_user_models u xs [])

  module _ (util : JwtUtil) where
    unfoldable pub sign_in : Moments → String → String → String → Db → Result AuthReply
    unfolding auth_reply
    sign_in at email password algorithm db =
        Session.sign_in util g b at email password algorithm db >>= λ pair. ok (auth_reply pair)

    unfoldable pub refresh_token :
        (String → Result String) → Moment → Moments → String → String → Db → Result AuthReply
    unfolding auth_reply
    refresh_token algorithm_of now at user_id token db =
        Session.refresh_token util g u algorithm_of now at user_id token db >>= λ pair.
        ok (auth_reply pair)

    unfoldable pub verify : Moment → String → Result (Unit {0})
    verify at token = Session.verify util at token
