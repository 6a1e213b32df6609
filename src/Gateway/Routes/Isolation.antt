-- ===== src/Gateway/Routes/Isolation.antt =====
-- What a request to backend/gateway may change in the table of tasks.
use tasktify.Prelude.{
  ◌≡◌, refl, ap, ◌∙◌, String, Option, some, List, Result, ok, err, panic, arith, lookup,
}
use tasktify.External.Uuid.{Uuid, UuidLib, IsUuidLib}
use tasktify.External.Gorm.{Gorm, IsGorm}
use tasktify.Jwt.Claims.{JwtClaims, Moment}
use tasktify.Jwt.Util.{JwtUtil}
use tasktify.Todo.Entity.{Task, IsTaskTable}
use tasktify.Todo.Service.Isolation.{of_others}
use tasktify.Todo.Server.{
  Metadata, Context, Handler, Call, create_call, update_call, delete_call, get_call, get_all_call,
  serve, dispatch, with_ok, auth_interceptor, auth_context, values_of,
}
use tasktify.Todo.Server.Access.{serve_isolated}
use tasktify.Gateway.Http.{Locals, bind, local_user}
use tasktify.Gateway.Middleware.{handle, trim_prefix}
use tasktify.Gateway.Tasks
use tasktify.Gateway.Tasks.{
  TaskBody, TaskClient, task_client, create_request, update_request, forward_context,
  to_task_response,
}
use tasktify.Gateway.Routes.{
  TaskRoute, post_task, get_tasks, get_task, put_task, delete_task, handler_of, tasks_route,
}
use tasktify.Gateway.Routes.Access.{IsPassed, handle_sound}

-- What holds of the state holds after a step that goes on with a value.
with_ok-keeps :
    {Db A B : Type 0} (P : Db → Type 0) (m : Result A) (h : A → Handler Db B) (db : Db)
    → P db
    → ((a : A) → m ≡ ok a → P (h a db).1)
    → P (with_ok m h db).1
unfolding with_ok
with_ok-keeps P (ok a) h db p k = k a refl
with_ok-keeps P (err e) h db p k = p
with_ok-keeps P panic h db p k = p

-- Handlers that leave the same state do so after the interceptor.
interceptor-state :
    {Db A B : Type 0} (u : UuidLib) (md : Option Metadata) (h : Context → Handler Db A)
    (h' : Context → Handler Db B) (db : Db)
    → ((ctx : Context) → (h ctx db).1 ≡ (h' ctx db).1)
    → (auth_interceptor u md h db).1 ≡ (auth_interceptor u md h' db).1
unfolding auth_interceptor with_ok
interceptor-state u md h h' db same =
    elim (auth_context u md) as (λ m. (with_ok m h db).1 ≡ (with_ok m h' db).1) [
      | ok ctx ↦ same ctx
      | err e ↦ refl
      | panic ↦ refl
    ]

local_user-ok :
    (l : Locals) (user id : String) → l.user_id ≡ some user → local_user l ≡ ok id → id ≡ user
unfolding local_user
local_user-ok l user id named e = ground (arith, named)

module _ {Db : Type 0} (u : UuidLib) (uuids : IsUuidLib u) (g : Gorm Db Task)
    {rows : Db → List Task} {stamp : Db → Task → Task} {merge : Task → Task → Task}
    (gorm : IsGorm g rows stamp merge) (table : IsTaskTable stamp merge) (user_id : Uuid) where
  abbrev KeepsOthers : Db → Db → Type 0
  KeepsOthers db db' = of_others user_id (rows db') ≡ of_others user_id (rows db)

  served :
      (call : Call) (id : String) (db : Db)
      → id ≡ u.render user_id
      → KeepsOthers db (serve u g (some (forward_context id)) call db).1
  unfolding forward_context values_of lookup
  served call id db own =
      serve_isolated u g gorm table user_id (some (forward_context id)) id call db refl
        (rw own (uuids.parse_render user_id))

  -- A call of the client, for the user.
  called :
      {A : Type 0} (call : Call) (h : Context → Handler Db A) (id : String) (db : Db)
      → id ≡ u.render user_id
      → ((ctx : Context) → (h ctx db).1 ≡ (dispatch u g call ctx db).1)
      → KeepsOthers db (auth_interceptor u (some (forward_context id)) h db).1
  unfolding serve
  called call h id db own same =
      ap (λ d. of_others user_id (rows d))
        (interceptor-state u (some (forward_context id)) h (dispatch u g call) db same)
      ∙ served call id db own

  handler_isolated :
      (route : TaskRoute) (l : Locals) (db : Db)
      → l.user_id ≡ some (u.render user_id)
      → KeepsOthers db (handler_of (task_client u g) route l db).1
  unfolding handler_of Tasks.create Tasks.get_all Tasks.get_by_id Tasks.update Tasks.delete
      task_client dispatch
  handler_isolated (post_task body) l db user =
      with_ok-keeps (KeepsOthers db) (bind body) _ db refl λ req _.
        with_ok-keeps (KeepsOthers db) (local_user l) _ db refl λ id e.
          called (create_call (create_request id req)) _ id db (local_user-ok l _ id user e)
            (λ _. refl)
  handler_isolated get_tasks l db user =
      with_ok-keeps (KeepsOthers db) (local_user l) _ db refl
        λ id e. called get_all_call _ id db (local_user-ok l _ id user e) (λ _. refl)
  handler_isolated (get_task task) l db user =
      with_ok-keeps (KeepsOthers db) (local_user l) _ db refl λ id e.
        called (get_call (record { id = task; user_id = id })) _ id db (local_user-ok l _ id user e)
          (λ _. refl)
  handler_isolated (put_task task body) l db user =
      with_ok-keeps (KeepsOthers db) (bind body) _ db refl λ req _.
        with_ok-keeps (KeepsOthers db) (local_user l) _ db refl λ id e.
          called (update_call (update_request task id req)) _ id db (local_user-ok l _ id user e)
            (λ _. refl)
  handler_isolated (delete_task task) l db user =
      with_ok-keeps (KeepsOthers db) (local_user l) _ db refl λ id e.
        called (delete_call (record { id = task; user_id = id })) _ id db
          (local_user-ok l _ id user e) (λ _. refl)

  -- With gorm as documented, and ids that are read back as they are written: if all claims that
  -- Parse accepts for the token of a request's header are of one user, the request to
  -- /api/tasks, which the gateway hands to the task service, leaves the tasks of the other
  -- users as they are.
  pub tasks_route_isolated :
      (util : JwtUtil) (at : Moment) (header : String) (route : TaskRoute) (db : Db)
      → ((claims : JwtClaims)
          → util.parse at (trim_prefix header "Bearer ") ≡ ok claims
          → claims.user_id ≡ user_id)
      → of_others user_id (rows (tasks_route (task_client u g) util u at header route db).1)
        ≡ of_others user_id (rows db)
  unfolding tasks_route
  tasks_route_isolated util at header route db of_user =
      with_ok-keeps (KeepsOthers db) (handle util u at header) (handler_of (task_client u g) route)
        db refl
        λ l e.
          let passed : IsPassed util u at header l = handle_sound util u at header l e in
          handler_isolated route l db
            (passed.user ∙ ap (λ id. some (u.render id)) (of_user passed.claims passed.parsed))
