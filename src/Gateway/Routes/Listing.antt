-- ===== src/Gateway/Routes/Listing.antt =====
-- A task on its way from POST /api/tasks to GET /api/tasks of backend/gateway, through the task
-- service.
use mathlib.Core.List.{Perm}
use mathlib.Core.List.Perm
use tasktify.Prelude.{
  ◌≡◌, ◌≢◌, refl, sym, ap, subst, ◌∙◌, ℕ, String, some, List, [], ◌∷◌, ◌++◌, map, Result, ok, err,
  panic, arith, lookup, str_eq, eq_iff, false, append-nil, append_assoc, map-append, ok-injective,
}
use tasktify.External.Uuid.{Uuid, UuidLib}
use tasktify.External.Gorm.{Gorm, IsGorm}
use tasktify.Jwt.Claims.{Moment}
use tasktify.Jwt.Util.{JwtUtil}
use tasktify.Todo.Entity.{Task, TaskModel, IsTaskTable}
use tasktify.Todo.Service
use tasktify.Todo.Service.{new_task, to_task_model}
use tasktify.Todo.Service.Effects.{create-get_all}
use tasktify.Todo.Server
use tasktify.Todo.Server.{auth_context, values_of, check_ids, get_user_id, with_ok}
use tasktify.Gateway.Http.{Response, Locals, local_user}
use tasktify.Gateway.Middleware.{handle}
use tasktify.Gateway.Tasks
use tasktify.Gateway.Tasks.{
  TaskBody, TaskResponse, task_client, create_request, forward_context, reply, to_task_response,
  to_task_responses,
}
use tasktify.Gateway.Routes.{
  TaskData, all_tasks, with_data, post_task, get_tasks, handler_of, tasks_route,
}

-- The loop of GetAll collects the responses of the tasks, in order.
to_task_responses-map :
    (tasks : List TaskModel) (out : List TaskResponse)
    → to_task_responses tasks out ≡ out ++ map to_task_response tasks
unfolding to_task_responses
to_task_responses-map [] out = sym (append-nil out)
to_task_responses-map (t ∷ ts) out =
    to_task_responses-map ts (out ++ to_task_response t ∷ [])
    ∙ append_assoc out (to_task_response t ∷ []) (map to_task_response ts)

-- The answer to GET /api/tasks with the tasks.
abbrev pub listing : List TaskResponse → Response TaskData
listing tasks = record { status = 200; message = "success"; body = all_tasks tasks }

abbrev listed : TaskData → List TaskResponse
listed (all_tasks tasks) = tasks
listed _ = []

-- What a handler has answered with, the client has answered with before.
answered :
    {W A B : Type 0} (status : ℕ) (message : String) (f : A → B) (to_data : B → TaskData)
    (p : Result A × W) (r : Response TaskData)
    → (with_data to_data (reply status message f p)).0 ≡ ok r
    → (a : A) × (p.0 ≡ ok a) × (r.body ≡ to_data (f a))
unfolding reply
answered status message f to_data (ok a, w) r e =
    (a, refl, ap (λ (x : Response TaskData). x.body) (sym (ok-injective e)))
answered status message f to_data (err x, w) r e = absurd (cc e)
answered status message f to_data (panic, w) r e = absurd (cc e)

answered-state :
    {W A B : Type 0} (status : ℕ) (message : String) (f : A → B) (to_data : B → TaskData)
    (p : Result A × W)
    → (with_data to_data (reply status message f p)).1 ≡ p.1
unfolding reply
answered-state status message f to_data (r, w) = refl

perm-map :
    {A B : Type 0} (f : A → B) {xs : List A} (ys : List A) (z : A) {xs' ys' : List B}
    → xs' ≡ map f xs
    → ys' ≡ map f ys
    → Perm xs (ys ++ z ∷ [])
    → Perm xs' (ys' ++ f z ∷ [])
perm-map f {xs} ys z e e' p =
    rw (e, e') (subst (Perm (map f xs)) (map-append f ys (z ∷ [])) (Perm.map f p))

-- A request that the middleware lets pass for a user.
abbrev pub ActsFor : JwtUtil → UuidLib → Moment → String → String → Type 0
ActsFor util u at header id =
    (l : Locals) × (handle util u at header ≡ ok l) × (l.user_id ≡ some id)

-- A task as the gateway shows it, with what a request has asked for.
pub record IsShown (id : String) (body : TaskBody) (shown : TaskResponse) : Type 0 where
  pub same_title : shown.title ≡ body.title
  pub same_description : shown.description ≡ body.description
  pub same_status : shown.status ≡ body.status
  pub same_user : shown.user_id ≡ id

module _ {Db : Type 0} (u : UuidLib) (g : Gorm Db Task) {rows : Db → List Task}
    {stamp : Db → Task → Task} {merge : Task → Task → Task} (gorm : IsGorm g rows stamp merge)
    (table : IsTaskTable stamp merge) (user_id : Uuid) (id : String)
    (parsed : u.parse id ≡ ok user_id) (filled : id ≢ "") where
  forwarded : auth_context u (some (forward_context id)) ≡ ok (some id)
  unfolding auth_context check_ids values_of lookup forward_context
  forwarded = rw parsed refl

  read_back : get_user_id (some id) ≡ ok id
  unfolding get_user_id
  read_back = let other : str_eq id "" ≡ false = ground (arith, eq_iff id "") in rw other refl

  module _ (util : JwtUtil) (at : Moment) (header : String)
      (acts : ActsFor util u at header id) where
    pub posted :
        (body : TaskBody) (db : Db)
        → tasks_route (task_client u g) util u at header (post_task (ok body)) db
          ≡ with_data
              (λ _. TaskData.no_data)
              (reply 201 "task created" (λ _. tt) (Service.create u g (create_request id body) db))
    unfolding tasks_route handler_of Tasks.create local_user with_ok task_client Server.create
        create_request
    posted body db = rw (acts.1, acts.2, forwarded, read_back) refl

    pub got :
        (db : Db)
        → tasks_route (task_client u g) util u at header get_tasks db
          ≡ with_data all_tasks (
              reply 200 "success"
                (λ tasks. to_task_responses tasks [])
                (Service.get_all u g id db, db))
    unfolding tasks_route handler_of Tasks.get_all local_user with_ok task_client Server.get_all
    got db = rw (acts.1, acts.2, forwarded, read_back) refl

    -- The tasks of an answer are those that the service has found.
    got_models :
        (db : Db) (tasks : List TaskResponse)
        → (tasks_route (task_client u g) util u at header get_tasks db).0 ≡ ok (listing tasks)
        → (models : List TaskModel) × (Service.get_all u g id db ≡ ok models)
          × (tasks ≡ map to_task_response models)
    got_models db tasks e =
        let (models, found, same) =
          answered 200 "success" _ all_tasks (Service.get_all u g id db, db) (listing tasks)
            (rw (got db) at e) in
        (models, found, ap listed same ∙ to_task_responses-map models [])

  -- With gorm as documented: where the middleware lets three requests pass for the same user, whose
  -- id is a text that is not empty and can be parsed, a GET /api/tasks, a POST /api/tasks and again
  -- a GET, and all are answered with success, the second list is, in some order, the first and one
  -- task more, which has the title, the description, the status of the POST and the user.
  pub post_task-get_tasks :
      (util : JwtUtil) (at₀ at₁ at₂ : Moment) (header₀ header₁ header₂ : String) (body : TaskBody)
      (db : Db) (before after : List TaskResponse) (created : Response TaskData)
      → ActsFor util u at₀ header₀ id
      → ActsFor util u at₁ header₁ id
      → ActsFor util u at₂ header₂ id
      → (tasks_route (task_client u g) util u at₀ header₀ get_tasks db).0 ≡ ok (listing before)
      → (tasks_route (task_client u g) util u at₁ header₁ (post_task (ok body)) db).0 ≡ ok created
      → (tasks_route
          (task_client u g)
          util
          u
          at₂
          header₂
          get_tasks
          (tasks_route (task_client u g) util u at₁ header₁ (post_task (ok body)) db).1).0
        ≡ ok (listing after)
      → (shown : TaskResponse) × IsShown id body shown × Perm after (before ++ shown ∷ [])
  unfolding create_request to_task_response to_task_model new_task
  post_task-get_tasks util at₀ at₁ at₂ header₀ header₁ header₂ body db before after created a₀ a₁ a₂
        first post second =
      let request = create_request id body in
      let db' : Db = (Service.create u g request db).1 in
      let state =
        ap (λ p. p.1) (posted util at₁ header₁ a₁ body db)
        ∙ answered-state 201 "task created" (λ _. tt) (λ _. TaskData.no_data)
            (Service.create u g request db) in
      let (models, found, shown₀) = got_models util at₀ header₀ a₀ db before first in
      let (_, done, _) =
        answered 201 "task created" (λ _. tt) (λ _. TaskData.no_data)
          (Service.create u g request db) created
          (rw (posted util at₁ header₁ a₁ body db) at post) in
      let (models', found', shown₂) =
        got_models util at₂ header₂ a₂ db' after (rw state at second) in
      let added = stamp (g.begin db) (new_task u request user_id) in
      let more = create-get_all u g gorm user_id request db parsed table found done found' in
      (
        to_task_response (to_task_model u added id),
        record {
          same_title = table.stamp_title _ _;
          same_description = table.stamp_description _ _;
          same_status = table.stamp_status _ _;
          same_user = refl;
        },
        perm-map to_task_response models _ shown₂ shown₀ more,
      )
