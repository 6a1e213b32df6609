-- ===== src/Gateway/Routes/DueDates.antt =====
-- A due date on its way through backend/gateway and backend/todo-service, and back.
use tasktify.Prelude.{◌≡◌, String, some, false}
use tasktify.Prelude.Int.{ℤ, pos, IsInt64, leb_ℤ}
use tasktify.External.Uuid.{Uuid, UuidLib}
use tasktify.Times.{unix_milli-of_unix_milli}
use tasktify.Todo.Entity.{Task, IsTaskTable}
use tasktify.Todo.Service.{new_task, to_task_model, due_or, due_date_timestamp}
use tasktify.Gateway.Tasks.{
  TaskBody, create_request, to_task_response, due_timestamp, milli_or_zero,
}

-- What is stored for a due date.
stored : (ms : ℤ) → IsInt64 ms → due_or (pos 0) (due_timestamp (some ms)) ≡ ms
unfolding due_or due_timestamp
stored ms h = unix_milli-of_unix_milli ms h

-- What is shown of a stored date.
shown :
    (ms : ℤ) → IsInt64 ms → leb_ℤ ms (pos 0) ≡ false → milli_or_zero (due_date_timestamp ms) ≡ ms
unfolding due_date_timestamp milli_or_zero
shown ms h positive = rw positive (unix_milli-of_unix_milli ms h)

-- With gorm as documented: a due date in milliseconds that the gateway gets with a new task,
-- positive and in the range of int64, is the one that the gateway shows of the stored row.
pub due_date_kept :
    {Db : Type 0} {stamp : Db → Task → Task} {merge : Task → Task → Task} (u : UuidLib)
    (table : IsTaskTable stamp merge) (db : Db) (owner : String) (user_id : Uuid) (body : TaskBody)
    (ms : ℤ)
    → IsInt64 ms
    → leb_ℤ ms (pos 0) ≡ false
    → body.due_date ≡ some ms
    → (to_task_response (
        to_task_model u (stamp db (new_task u (create_request owner body) user_id)) owner)).due_date
      ≡ ms
unfolding to_task_response to_task_model new_task create_request
due_date_kept u table db owner user_id body ms h positive due =
    rw (table.stamp_due_date db (new_task u (create_request owner body) user_id), due, stored ms h)
      (shown ms h positive)
