-- ===== src/Auth/Repository.antt =====
-- backend/auth-service/internal/repository/user_repository.go
use tasktify.Prelude.{◌==◌, String, str_eq, Bool, true, List, Result}
use tasktify.External.Uuid.{Uuid}
use tasktify.External.Gorm.{Gorm}
use tasktify.Auth.Entity.{User}

-- `id = ?`
unfoldable pub by_id : Uuid → User → Bool
by_id id x = x.id == id

-- `email = ?`
unfoldable pub by_email : String → User → Bool
by_email email x = str_eq x.email email

module _ {Db : Type 0} (g : Gorm Db User) where
  unfoldable pub create : Db → User → Result Db
  create tx user = g.create user tx

  unfoldable pub update : Db → User → Result Db
  update tx user = g.updates (by_id user.id) user tx

  unfoldable pub delete : Db → User → Result Db
  delete tx user = g.delete (by_id user.id) tx

  unfoldable pub get_by_id : Db → Uuid → Result User
  get_by_id tx id = g.first (by_id id) tx

  unfoldable pub get_by_email : Db → String → Result User
  get_by_email tx email = g.first (by_email email) tx

  unfoldable pub get_all : Db → Result (List User)
  get_all tx = g.find (λ _. true) tx
