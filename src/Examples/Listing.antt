-- ===== src/Examples/Listing.antt =====
-- The theorem on a task that is created and listed, through the gateway.
use mathlib.Core.List.{Perm}
use tasktify.Prelude.{◌≡◌, ◌≢◌, refl, ap, String, some, List, [], ◌∷◌, ◌++◌, ok}
use tasktify.Todo.Entity.{Task}
use tasktify.Todo.Repository
use tasktify.Todo.Repository.{by_user}
use tasktify.Todo.Service
use tasktify.Todo.Service.{new_task, to_task_model, to_task_models}
use tasktify.Gateway.Http.{Response, or_translate}
use tasktify.Gateway.Tasks.{
  TaskResponse, task_client, create_request, reply, to_task_response, to_task_responses,
}
use tasktify.Gateway.Routes.{TaskData, post_task, get_tasks, tasks_route}
use tasktify.Gateway.Routes.Listing.{listing, ActsFor, IsShown, got, posted, post_task-get_tasks}
use tasktify.Examples.Memory.{tasks, stamp_task, merge_task, task_table, memory-IsGorm}
use tasktify.Examples.Uuids.{uuids, parse_mark}
use tasktify.Examples.Jwt.{later, filled}
use tasktify.Examples.Auth.{two_tokens}
use tasktify.Examples.Todo.{table, alices}
use tasktify.Examples.Gateway.{passed, body}

alice_parsed : uuids.parse "111#" ≡ ok 3
unfolding parse_mark
alice_parsed = refl

acts : ActsFor two_tokens uuids later "Bearer access" "111#"
acts = (record { user_id = some "111#"; user_email = some "alice@example.org" }, passed, refl)

abbrev as_shown : Task → TaskResponse
as_shown t = to_task_response (to_task_model uuids t "111#")

abbrev old : List TaskResponse
old = as_shown alices ∷ []

abbrev more : List TaskResponse
more =
    as_shown alices
    ∷ as_shown (stamp_task table (new_task uuids (create_request "111#" body) 3))
    ∷ []

abbrev alice : String
alice = "111#"

alice_filled : alice ≢ ""
alice_filled = filled alice refl

first :
    (tasks_route (task_client uuids tasks) two_tokens uuids later "Bearer access" get_tasks table).0
    ≡ ok (listing old)
unfolding reply or_translate Service.get_all parse_mark Repository.get_all by_user to_task_models
    to_task_responses
first =
    ap (λ p. p.0)
      (got uuids tasks (memory-IsGorm stamp_task merge_task) task_table 3 "111#" alice_parsed
        alice_filled two_tokens later "Bearer access" acts table)

abbrev created : Response TaskData
created = record { status = 201; message = "task created"; body = TaskData.no_data }

post :
    tasks_route
      (task_client uuids tasks)
      two_tokens
      uuids
      later
      "Bearer access"
      (post_task (ok body))
      table
    ≡ (ok created, table ++ stamp_task table (new_task uuids (create_request "111#" body) 3) ∷ [])
unfolding reply or_translate Service.create parse_mark Repository.create create_request
post =
    posted uuids tasks (memory-IsGorm stamp_task merge_task) task_table 3 "111#" alice_parsed
      alice_filled two_tokens later "Bearer access" acts body table

second :
    (tasks_route
      (task_client uuids tasks)
      two_tokens
      uuids
      later
      "Bearer access"
      get_tasks
      (tasks_route
        (task_client uuids tasks)
        two_tokens
        uuids
        later
        "Bearer access"
        (post_task (ok body))
        table).1).0
    ≡ ok (listing more)
unfolding reply or_translate Service.get_all parse_mark Repository.get_all by_user to_task_models
    to_task_responses new_task
second = rw post (
    ap (λ p. p.0)
      (got uuids tasks (memory-IsGorm stamp_task merge_task) task_table 3 "111#" alice_parsed
        alice_filled two_tokens later "Bearer access" acts
        (table ++ stamp_task table (new_task uuids (create_request "111#" body) 3) ∷ [])))

post_task-get_tasks_example :
    (shown : TaskResponse) × IsShown "111#" body shown × Perm more (old ++ shown ∷ [])
post_task-get_tasks_example =
    post_task-get_tasks uuids tasks (memory-IsGorm stamp_task merge_task) task_table 3 "111#"
      alice_parsed alice_filled two_tokens later later later "Bearer access" "Bearer access"
      "Bearer access" body table old more created acts acts acts first (ap (λ p. p.0) post) second
