-- ===== src/Todo/Service.antt =====
-- backend/todo-service/internal/service/task_service.go. A writing method takes the committed
-- state and returns it with its error: what the transaction did is there only after its commit.
-- Logging is left out.
pub mod Isolation
pub mod Effects
pub mod Updates
use tasktify.Prelude.{
  String, Option, none, some, List, [], ◌∷◌, ◌++◌, Result, ok, ◌>>=◌, or_error, grpc_status,
  if◌then◌else◌,
}
use tasktify.Prelude.Int.{ℤ, pos, ltb_ℤ, leb_ℤ}
use tasktify.External.Uuid.{Uuid, UuidLib}
use tasktify.External.Gorm.{Gorm, settle}
use tasktify.Grpc.{invalid_argument, not_found, internal}
use tasktify.Times.{Timestamp, unix, of_unix_milli, unix_milli, timestamp, as_time}
use tasktify.Todo.Entity.{Task, CreateTaskRequest, UpdateTaskRequest, TaskRef, TaskModel}
use tasktify.Todo.Repository

abbrev pub unix_milli_threshold : ℤ
unix_milli_threshold = pos 1_000_000_000_000

unfoldable pub task_timestamp : ℤ → Option Timestamp
task_timestamp value =
    if leb_ℤ value (pos 0)
    then none
    else if ltb_ℤ value unix_milli_threshold
    then some (timestamp (unix value (pos 0)))
    else some (timestamp (of_unix_milli value))

unfoldable pub due_date_timestamp : ℤ → Option Timestamp
due_date_timestamp value =
    if leb_ℤ value (pos 0) then none else some (timestamp (of_unix_milli value))

-- `if request.DueDate != nil { task.DueDate = request.DueDate.AsTime().UnixMilli() }`
unfoldable pub due_or : ℤ → Option Timestamp → ℤ
due_or old none = old
due_or old (some ts) = unix_milli (as_time ts)

module _ (u : UuidLib) where
  unfoldable pub to_task_model : Task → String → TaskModel
  to_task_model task user_id = record {
    id = u.render task.id;
    title = task.title;
    description = task.description;
    status = task.status;
    due_date = due_date_timestamp task.due_date;
    user_id = user_id;
    created_at = task_timestamp task.created_at;
    updated_at = task_timestamp task.updated_at;
  }

  -- The loop of GetAll: `tasksResponse = append(tasksResponse, …)`.
  unfoldable pub to_task_models : List Task → String → List TaskModel → List TaskModel
  to_task_models [] user_id out = out
  to_task_models (task ∷ tasks) user_id out =
      to_task_models tasks user_id (out ++ to_task_model task user_id ∷ [])

  abbrev task_id : String → Result Uuid
  task_id s = or_error (grpc_status invalid_argument "invalid task id") (u.parse s)

  abbrev owner_id : String → Result Uuid
  owner_id s = or_error (grpc_status invalid_argument "invalid user id") (u.parse s)

  -- The literal `&entity.Task{…}` of Create; what it leaves out is zero.
  unfoldable pub new_task : CreateTaskRequest → Uuid → Task
  unfolding due_or
  new_task request user_id = record {
    id = 0;
    title = request.title;
    description = request.description;
    status = request.status;
    due_date = due_or (pos 0) request.due_date;
    user_id = user_id;
    created_at = pos 0;
    updated_at = pos 0;
  }

  -- The assignments of Update.
  unfoldable pub edit_task : UpdateTaskRequest → Task → Task
  unfolding due_or
  edit_task request task = record task {
    title = request.title;
    description = request.description;
    status = request.status;
    due_date = due_or task.due_date request.due_date;
  }

  module _ {Db : Type 0} (g : Gorm Db Task) where
    abbrev commit : Db → Result Db
    commit tx = or_error (grpc_status internal "internal server error") (g.commit tx)

    abbrev load : Db → Uuid → Uuid → Result Task
    load tx id user_id =
        or_error (grpc_status not_found "task not found") (Repository.get_by_id g tx id user_id)

    create_tx : CreateTaskRequest → Db → Result Db
    create_tx request tx = do
      user_id ← owner_id request.user_id
      tx' ←
          or_error (grpc_status internal "failed to create task")
            (Repository.create g tx (new_task request user_id))
      commit tx'

    update_tx : UpdateTaskRequest → Db → Result Db
    update_tx request tx = do
      id ← task_id request.id
      user_id ← owner_id request.user_id
      task ← load tx id user_id
      tx' ←
          or_error (grpc_status internal "failed to update task")
            (Repository.update g tx (edit_task request task))
      commit tx'

    delete_tx : TaskRef → Db → Result Db
    delete_tx request tx = do
      id ← task_id request.id
      user_id ← owner_id request.user_id
      task ← load tx id user_id
      tx' ← or_error (grpc_status internal "failed to delete task") (Repository.delete g tx task)
      commit tx'

    unfoldable pub create : CreateTaskRequest → Db → Result (Unit {0}) × Db
    unfolding create_tx settle
    create request db = settle db (create_tx request (g.begin db))

    unfoldable pub update : UpdateTaskRequest → Db → Result (Unit {0}) × Db
    unfolding update_tx settle
    update request db = settle db (update_tx request (g.begin db))

    unfoldable pub delete : TaskRef → Db → Result (Unit {0}) × Db
    unfolding delete_tx settle
    delete request db = settle db (delete_tx request (g.begin db))

    unfoldable pub get_by_id : String → String → Db → Result TaskModel
    get_by_id id user_id db = do
      parsed_id ← task_id id
      parsed_user ← owner_id user_id
      task ← load db parsed_id parsed_user
      ok (to_task_model task user_id)

    unfoldable pub get_all : String → Db → Result (List TaskModel)
    get_all user_id db = do
      parsed_user ← owner_id user_id
      tasks ←
          or_error (grpc_status internal "internal server error")
            (Repository.get_all g db parsed_user)
      ok (to_task_models tasks user_id [])
