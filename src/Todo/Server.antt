-- ===== src/Todo/Server.antt =====
-- backend/todo-service/internal/delivery/grpc: the interceptor that reads the caller's id, and the
-- methods of server/task_server.go, which act for that id.
pub mod Access
use tasktify.Prelude.{
  ℕ, String, Option, none, some, List, [], ◌∷◌, Result, ok, err, panic, ◌>>=◌, or_error,
  grpc_status, str_eq, if◌then◌else◌, lookup,
}
use tasktify.External.Uuid.{Uuid, UuidLib}
use tasktify.External.Gorm.{Gorm}
use tasktify.Grpc.{unauthenticated}
use tasktify.Todo.Entity.{Task, CreateTaskRequest, UpdateTaskRequest, TaskRef, TaskModel}
use tasktify.Todo.Service

-- metadata.MD: the values of each key.
abbrev pub Metadata : Type 0
Metadata = List (String × List String)

-- The value under AuthContextKey in the context of a call.
abbrev pub Context : Type 0
Context = Option String

-- A handler reads and writes the committed state.
abbrev pub Handler : Type 0 → Type 0 → Type 0
Handler Db A = Db → Result A × Db

-- md.Get: no values where the key is missing.
unfoldable pub values_of : String → Metadata → List String
unfolding lookup
values_of key md = elim (lookup key md) [ none ↦ [] | some ids ↦ ids ]

-- The context that AuthInterceptor gives to the handler, from the values of x-user-id.
unfoldable pub check_ids : UuidLib → List String → Result Context
check_ids u [] = err (grpc_status unauthenticated "x-user-id not provided")
check_ids u (id ∷ _) =
    or_error (grpc_status unauthenticated "invalid x-user-id") (u.parse id) >>= λ _. ok (some id)

unfoldable pub auth_context : UuidLib → Option Metadata → Result Context
unfolding check_ids values_of
auth_context u none = err (grpc_status unauthenticated "metadata not provided")
auth_context u (some md) = check_ids u (values_of "x-user-id" md)

-- Go on with a value, or answer with its error and leave the state alone.
unfoldable pub with_ok : {Db A B : Type 0} → Result A → (A → Handler Db B) → Handler Db B
with_ok (ok a) handler db = handler a db
with_ok (err e) handler db = (err e, db)
with_ok panic handler db = (panic, db)

unfoldable pub auth_interceptor :
    {Db A : Type 0} → UuidLib → Option Metadata → (Context → Handler Db A) → Handler Db A
unfolding auth_context with_ok
auth_interceptor u md handler = with_ok (auth_context u md) handler

unfoldable pub get_user_id : Context → Result String
get_user_id none = err (grpc_status unauthenticated "user not authenticated")
get_user_id (some id) =
    if str_eq id "" then err (grpc_status unauthenticated "user not authenticated") else ok id

module _ (u : UuidLib) {Db : Type 0} (g : Gorm Db Task) (ctx : Context) where
  unfoldable pub create : CreateTaskRequest → Handler Db (Unit {0})
  unfolding get_user_id with_ok
  create request =
      with_ok (get_user_id ctx) λ id. Service.create u g (record request { user_id = id })

  unfoldable pub update : UpdateTaskRequest → Handler Db (Unit {0})
  unfolding get_user_id with_ok
  update request =
      with_ok (get_user_id ctx) λ id. Service.update u g (record request { user_id = id })

  unfoldable pub delete : TaskRef → Handler Db (Unit {0})
  unfolding get_user_id with_ok
  delete request =
      with_ok (get_user_id ctx) λ id. Service.delete u g (record request { user_id = id })

  unfoldable pub get : TaskRef → Handler Db TaskModel
  unfolding get_user_id with_ok
  get request = with_ok (get_user_id ctx) λ id db. (Service.get_by_id u g request.id id db, db)

  -- GetAllTaskRequest has only a user id, which is overwritten.
  unfoldable pub get_all : Handler Db (List TaskModel)
  unfolding get_user_id with_ok
  get_all = with_ok (get_user_id ctx) λ id db. (Service.get_all u g id db, db)

-- The calls of the service, as the gRPC server hands them to the interceptor and the methods.
pub data Call : Type 0 where
  create_call : CreateTaskRequest → Call
  update_call : UpdateTaskRequest → Call
  delete_call : TaskRef → Call
  get_call : TaskRef → Call
  get_all_call : Call

pub data Reply : Type 0 where
  done : Reply
  one : TaskModel → Reply
  many : List TaskModel → Reply

abbrev answer {ℓ} : {Db A : Type ℓ} → (A → Reply) → Result A × Db → Result Reply × Db
answer f (r, db) = (r >>= λ a. ok (f a), db)

unfoldable pub dispatch : {Db : Type 0} → UuidLib → Gorm Db Task → Call → Context → Handler Db Reply
unfolding create update delete get get_all
dispatch u g (create_call request) ctx db = answer (λ _. done) (create u g ctx request db)
dispatch u g (update_call request) ctx db = answer (λ _. done) (update u g ctx request db)
dispatch u g (delete_call request) ctx db = answer (λ _. done) (delete u g ctx request db)
dispatch u g (get_call request) ctx db = answer one (get u g ctx request db)
dispatch u g get_all_call ctx db = answer many (get_all u g ctx db)

unfoldable pub serve :
    {Db : Type 0} → UuidLib → Gorm Db Task → Option Metadata → Call → Handler Db Reply
unfolding dispatch auth_interceptor
serve u g md call = auth_interceptor u md (dispatch u g call)
