-- ===== src/Auth/Entity.antt =====
-- backend/auth-service/internal/entity/user_entity.go and the messages of proto/user.proto that the
-- service reads and writes.
use tasktify.Prelude.{String, ◌≡◌, if◌then◌else◌, str_eq}
use tasktify.Prelude.Int.{ℤ}
use tasktify.External.Uuid.{Uuid}
use tasktify.Times.{Timestamp}

pub record User : Type 0 where
  pub id : Uuid
  pub name : String
  pub email : String
  pub password : String
  pub created_at : ℤ
  pub updated_at : ℤ

pub record CreateUserRequest : Type 0 where
  pub name : String
  pub email : String
  pub password : String

pub record UpdateUserRequest : Type 0 where
  pub id : String
  pub name : String
  pub email : String
  pub password : String

-- model.User, less the password, which no method fills in.
pub record UserModel : Type 0 where
  pub id : String
  pub name : String
  pub email : String
  pub created_at : Timestamp
  pub updated_at : Timestamp

-- What gorm documents for this entity: `Create` fills the id and the times and keeps the rest;
-- `Updates` with a struct writes the fields that are not zero and keeps the others.
pub record IsUserTable {Db : Type 0} (stamp : Db → User → User) (merge : User → User → User)
    : Type 0 where
  pub stamp_name : (db : Db) (x : User) → (stamp db x).name ≡ x.name
  pub stamp_email : (db : Db) (x : User) → (stamp db x).email ≡ x.email
  pub stamp_password : (db : Db) (x : User) → (stamp db x).password ≡ x.password
  pub merge_id : (old new : User) → (merge old new).id ≡ old.id
  pub merge_password :
      (old new : User)
      → (merge old new).password ≡ (if str_eq new.password "" then old.password else new.password)
