-- ===== src/Gateway/Tasks.antt =====
-- backend/gateway/internal/delivery/http/handler/task_handler.go and the messages of types.go that
-- it reads and writes. The client of the task service is a record of its calls, each with the
-- outgoing metadata; `W` is the state that the calls change.
use tasktify.Prelude.{ℕ, String, Option, none, some, List, [], ◌∷◌, ◌++◌, Result, ok, ◌>>=◌}
use tasktify.Prelude.Int.{ℤ, pos}
use tasktify.External.Uuid.{UuidLib}
use tasktify.External.Gorm.{Gorm}
use tasktify.Times.{Timestamp, of_unix_milli, unix_milli, timestamp, as_time}
use tasktify.Todo.Entity.{Task, CreateTaskRequest, UpdateTaskRequest, TaskRef, TaskModel}
use tasktify.Todo.Server
use tasktify.Todo.Server.{Metadata, Handler, auth_interceptor, with_ok}
use tasktify.Gateway.Http.{Response, Locals, bind, local_user, grpc_to_http_error, or_translate}

-- CreateTaskRequest and UpdateTaskRequest of types.go
pub record TaskBody : Type 0 where
  pub title : String
  pub description : String
  pub status : String
  pub due_date : Option ℤ

pub record TaskResponse : Type 0 where
  pub id : String
  pub title : String
  pub description : String
  pub status : String
  pub due_date : ℤ
  pub user_id : String
  pub created_at : ℤ
  pub updated_at : ℤ

-- model.TaskServiceClient
pub record TaskClient (W : Type 0) : Type 0 where
  pub create : Metadata → CreateTaskRequest → Handler W (Unit {0})
  pub update : Metadata → UpdateTaskRequest → Handler W (Unit {0})
  pub delete : Metadata → TaskRef → Handler W (Unit {0})
  pub get : Metadata → TaskRef → Handler W TaskModel
  pub get_all : Metadata → String → Handler W (List TaskModel)

-- The outgoing metadata of forwardContext.
unfoldable pub forward_context : String → Metadata
forward_context user_id = ("x-user-id", user_id ∷ []) ∷ []

-- `if task.DueDate != nil { resp.DueDate = … }`, which leaves 0 else.
unfoldable pub milli_or_zero : Option Timestamp → ℤ
milli_or_zero none = pos 0
milli_or_zero (some ts) = unix_milli (as_time ts)

unfoldable pub to_task_response : TaskModel → TaskResponse
unfolding milli_or_zero
to_task_response task = record {
  id = task.id;
  title = task.title;
  description = task.description;
  status = task.status;
  due_date = milli_or_zero task.due_date;
  user_id = task.user_id;
  created_at = milli_or_zero task.created_at;
  updated_at = milli_or_zero task.updated_at;
}

-- The loop of GetAll: `tasks = append(tasks, toTaskResponse(task))`.
unfoldable pub to_task_responses : List TaskModel → List TaskResponse → List TaskResponse
unfolding to_task_response
to_task_responses [] out = out
to_task_responses (task ∷ tasks) out = to_task_responses tasks (out ++ to_task_response task ∷ [])

-- `if req.DueDate != nil { grpcReq.DueDate = timestamppb.New(time.UnixMilli(*req.DueDate)) }`
unfoldable pub due_timestamp : Option ℤ → Option Timestamp
due_timestamp none = none
due_timestamp (some ms) = some (timestamp (of_unix_milli ms))

unfoldable pub create_request : String → TaskBody → CreateTaskRequest
unfolding due_timestamp
create_request user_id req = record {
  user_id = user_id;
  title = req.title;
  description = req.description;
  status = req.status;
  due_date = due_timestamp req.due_date;
}

unfoldable pub update_request : String → String → TaskBody → UpdateTaskRequest
unfolding due_timestamp
update_request id user_id req = record {
  id = id;
  user_id = user_id;
  title = req.title;
  description = req.description;
  status = req.status;
  due_date = due_timestamp req.due_date;
}

-- The reply of a handler to the reply of the client.
unfoldable pub reply :
    {W A B : Type 0} → ℕ → String → (A → B) → Result A × W → Result (Response B) × W
unfolding or_translate
reply status message f (r, w) = (
  or_translate grpc_to_http_error r >>= λ a.
      ok (record { status = status; message = message; body = f a }),
  w,
)

module _ {W : Type 0} (client : TaskClient W) (l : Locals) where
  unfoldable pub create : Result TaskBody → Handler W (Response (Unit {0}))
  unfolding with_ok bind local_user forward_context create_request reply
  create body = with_ok (bind body) λ req. with_ok (local_user l) λ user_id w.
      reply 201 "task created" (λ _. tt)
        (client.create (forward_context user_id) (create_request user_id req) w)

  unfoldable pub update : String → Result TaskBody → Handler W (Response (Unit {0}))
  unfolding with_ok bind local_user forward_context update_request reply
  update id body = with_ok (bind body) λ req. with_ok (local_user l) λ user_id w.
      reply 200 "task updated" (λ _. tt)
        (client.update (forward_context user_id) (update_request id user_id req) w)

  unfoldable pub delete : String → Handler W (Response (Unit {0}))
  unfolding with_ok local_user forward_context reply
  delete id = with_ok (local_user l) λ user_id w.
      reply 200 "task deleted" (λ _. tt)
        (client.delete (forward_context user_id) (record { id = id; user_id = user_id }) w)

  unfoldable pub get_by_id : String → Handler W (Response TaskResponse)
  unfolding with_ok local_user forward_context reply to_task_response
  get_by_id id = with_ok (local_user l) λ user_id w.
      reply 200 "success" to_task_response
        (client.get (forward_context user_id) (record { id = id; user_id = user_id }) w)

  unfoldable pub get_all : Handler W (Response (List TaskResponse))
  unfolding with_ok local_user forward_context reply to_task_responses
  get_all = with_ok (local_user l) λ user_id w.
      reply 200 "success" (λ tasks. to_task_responses tasks [])
        (client.get_all (forward_context user_id) user_id w)

-- The client whose calls reach the task service.
unfoldable pub task_client : {Db : Type 0} → UuidLib → Gorm Db Task → TaskClient Db
unfolding auth_interceptor
task_client u g = record {
  create = λ md request. auth_interceptor u (some md) λ ctx. Server.create u g ctx request;
  update = λ md request. auth_interceptor u (some md) λ ctx. Server.update u g ctx request;
  delete = λ md request. auth_interceptor u (some md) λ ctx. Server.delete u g ctx request;
  get = λ md request. auth_interceptor u (some md) λ ctx. Server.get u g ctx request;
  get_all = λ md user_id. auth_interceptor u (some md) λ ctx. Server.get_all u g ctx;
}
