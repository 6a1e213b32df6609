-- ===== src/Auth/Users.antt =====
-- backend/auth-service/internal/service/user_service.go. A writing method takes the committed state
-- and returns it with its error. Logging is left out.
pub mod Effects
pub mod Passwords
use tasktify.Prelude.{String, List, Result, ok, ◌>>=◌, or_error, grpc_status, if◌then◌else◌, str_eq}
use tasktify.Prelude.Int.{pos}
use tasktify.External.Uuid.{Uuid, UuidLib}
use tasktify.External.Gorm.{Gorm, settle}
use tasktify.External.Bcrypt.{BcryptLib}
use tasktify.Grpc.{invalid_argument, not_found, internal}
use tasktify.Auth.Entity.{User, CreateUserRequest, UpdateUserRequest}
use tasktify.Auth.Repository

module _ (u : UuidLib) (b : BcryptLib) where
  abbrev parse_id : String → Result Uuid
  parse_id s = or_error (grpc_status invalid_argument "invalid user id") (u.parse s)

  abbrev hash : String → Result String
  hash password = or_error (grpc_status internal "internal server error") (b.generate password)

  -- The literal `&entity.User{…}` of Create; what it leaves out is zero.
  unfoldable pub new_user : CreateUserRequest → String → User
  new_user request hashed = record {
    id = 0;
    name = request.name;
    email = request.email;
    password = hashed;
    created_at = pos 0;
    updated_at = pos 0;
  }

  -- The password that Update writes: the old one if the request has none.
  unfoldable pub new_password : String → String → Result String
  new_password old password =
      if str_eq password ""
      then ok old
      else or_error (grpc_status internal "internal server error") (b.generate password)

  -- The assignments of Update.
  unfoldable pub edit_user : UpdateUserRequest → User → Result User
  unfolding new_password
  edit_user request user = new_password user.password request.password >>= λ password.
      ok (record user { name = request.name; email = request.email; password = password })

  module _ {Db : Type 0} (g : Gorm Db User) where
    abbrev commit : Db → Result Db
    commit tx = or_error (grpc_status internal "internal server error") (g.commit tx)

    abbrev load : Db → Uuid → Result User
    load tx id = or_error (grpc_status not_found "user not found") (Repository.get_by_id g tx id)

    create_tx : CreateUserRequest → Db → Result Db
    create_tx request tx = do
      hashed ← hash request.password
      tx' ←
          or_error (grpc_status internal "failed to create user")
            (Repository.create g tx (new_user request hashed))
      commit tx'

    update_tx : UpdateUserRequest → Db → Result Db
    update_tx request tx = do
      id ← parse_id request.id
      user ← load tx id
      edited ← edit_user request user
      tx' ← or_error (grpc_status internal "failed to update user") (Repository.update g tx edited)
      commit tx'

    delete_tx : String → Db → Result Db
    delete_tx id tx = do
      parsed_id ← parse_id id
      user ← load tx parsed_id
      tx' ← or_error (grpc_status internal "failed to delete user") (Repository.delete g tx user)
      commit tx'

    unfoldable pub create : CreateUserRequest → Db → Result (Unit {0}) × Db
    unfolding create_tx settle
    create request db = settle db (create_tx request (g.begin db))

    unfoldable pub update : UpdateUserRequest → Db → Result (Unit {0}) × Db
    unfolding update_tx settle
    update request db = settle db (update_tx request (g.begin db))

    unfoldable pub delete : String → Db → Result (Unit {0}) × Db
    unfolding delete_tx settle
    delete id db = settle db (delete_tx id (g.begin db))

    unfoldable pub get : String → Db → Result User
    get id db = parse_id id >>= load db

    unfoldable pub get_all : Db → Result (List User)
    get_all db = or_error (grpc_status internal "internal server error") (Repository.get_all g db)
