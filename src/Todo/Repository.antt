-- ===== src/Todo/Repository.antt =====
-- backend/todo-service/internal/repository/task_repository.go
use tasktify.Prelude.{◌==◌, ◌&&◌, Bool, List, Result}
use tasktify.External.Uuid.{Uuid}
use tasktify.External.Gorm.{Gorm}
use tasktify.Todo.Entity.{Task}

-- `id = ? AND user_id = ?`
unfoldable pub by_id_and_user : Uuid → Uuid → Task → Bool
by_id_and_user id user_id t = t.id == id && t.user_id == user_id

-- `user_id = ?`
unfoldable pub by_user : Uuid → Task → Bool
by_user user_id t = t.user_id == user_id

module _ {Db : Type 0} (g : Gorm Db Task) where
  unfoldable pub create : Db → Task → Result Db
  create tx task = g.create task tx

  unfoldable pub update : Db → Task → Result Db
  update tx task = g.updates (by_id_and_user task.id task.user_id) task tx

  unfoldable pub delete : Db → Task → Result Db
  delete tx task = g.delete (by_id_and_user task.id task.user_id) tx

  unfoldable pub get_by_id : Db → Uuid → Uuid → Result Task
  get_by_id tx id user_id = g.first (by_id_and_user id user_id) tx

  unfoldable pub get_all : Db → Uuid → Result (List Task)
  get_all tx user_id = g.find (by_user user_id) tx
