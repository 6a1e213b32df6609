-- ===== src/Gateway/Routes.antt =====
-- backend/gateway/internal/delivery/http/route/route.go: the protected routes, behind the
-- middleware. The router of fiber has picked the route and its parameters.
pub mod Access
pub mod Statuses
pub mod Isolation
pub mod DueDates
pub mod Accounts
pub mod Issued
pub mod Listing
pub mod Trailers
use tasktify.Prelude.{String, List, Result, ok, ◌>>=◌}
use tasktify.External.Uuid.{UuidLib}
use tasktify.Todo.Server.{Handler, with_ok}
use tasktify.Jwt.Claims.{Moment}
use tasktify.Jwt.Util.{JwtUtil}
use tasktify.Gateway.Http.{Response, Locals}
use tasktify.Gateway.Middleware.{handle}
use tasktify.Gateway.Tasks
use tasktify.Gateway.Tasks.{TaskBody, TaskResponse, TaskClient}

-- The routes of the group /tasks; a body is what `c.Bind().JSON` gives.
pub data TaskRoute : Type 0 where
  post_task : Result TaskBody → TaskRoute
  get_tasks : TaskRoute
  get_task : String → TaskRoute
  put_task : String → Result TaskBody → TaskRoute
  delete_task : String → TaskRoute

-- The values of the field Data of a response.
pub data TaskData : Type 0 where
  no_data : TaskData
  one_task : TaskResponse → TaskData
  all_tasks : List TaskResponse → TaskData

abbrev with_data :
    {W A : Type 0} → (A → TaskData) → Result (Response A) × W → Result (Response TaskData) × W
with_data f (r, w) =
    (r >>= λ a. ok (record { status = a.status; message = a.message; body = f a.body }), w)

module _ {W : Type 0} (client : TaskClient W) where
  unfoldable pub handler_of : TaskRoute → Locals → Handler W (Response TaskData)
  handler_of (post_task body) l w = with_data (λ _. no_data) (Tasks.create client l body w)
  handler_of get_tasks l w = with_data all_tasks (Tasks.get_all client l w)
  handler_of (get_task id) l w = with_data one_task (Tasks.get_by_id client l id w)
  handler_of (put_task id body) l w = with_data (λ _. no_data) (Tasks.update client l id body w)
  handler_of (delete_task id) l w = with_data (λ _. no_data) (Tasks.delete client l id w)

  -- A request to /api/tasks, with its header Authorization.
  unfoldable pub tasks_route :
      JwtUtil → UuidLib → Moment → String → TaskRoute → Handler W (Response TaskData)
  unfolding with_ok handler_of handle
  tasks_route util u at header route = with_ok (handle util u at header) (handler_of route)
