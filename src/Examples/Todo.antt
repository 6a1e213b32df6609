-- ===== src/Examples/Todo.antt =====
-- The theorems on backend/todo-service at a table with the tasks of two users.
use tasktify.Prelude.{
  ◌≡◌, refl, String, none, some, List, [], ◌∷◌, ◌++◌, ok, err, IsErr, All, map, grpc_status,
}
use tasktify.Prelude.Int.{pos}
use tasktify.Grpc.{unauthenticated}
use tasktify.Todo.Entity.{Task, CreateTaskRequest, UpdateTaskRequest}
use tasktify.Todo.Repository
use tasktify.Todo.Repository.{by_user, by_id_and_user}
use tasktify.Todo.Service
use tasktify.Todo.Service.{new_task, to_task_model, to_task_models}
use tasktify.Todo.Service.Isolation.{of_others}
use tasktify.Todo.Service.Effects.{create_rows}
use tasktify.Todo.Service.Updates.{HasEdit, update_edits, update_keeps_descriptions}
use tasktify.Todo.Server.{Metadata, create_call, delete_call, serve, values_of}
use tasktify.Todo.Server.Access.{caller, serve_isolated, serve-unauthenticated}
use tasktify.Examples.Memory.{tasks, stamp_task, merge_task, first_row, memory-IsGorm, task_table}
use tasktify.Examples.Uuids.{uuids, parse_mark}

abbrev pub alices : Task
alices = record {
  id = 1;
  title = "write";
  description = "a letter";
  status = "open";
  due_date = pos 0;
  user_id = 3;
  created_at = pos 1_700_000_000;
  updated_at = pos 1_700_000_000;
}

abbrev pub bobs : Task
bobs = record alices { id = 2; title = "read"; user_id = 4 }

abbrev pub table : List Task
table = alices ∷ bobs ∷ []

abbrev pub alice : String
alice = "111#"

pub alice_parsed : uuids.parse alice ≡ ok 3
unfolding parse_mark
alice_parsed = refl

abbrev pub as_alice : Metadata
as_alice = ("x-user-id", alice ∷ []) ∷ []

abbrev new_errand : CreateTaskRequest
new_errand = record {
  user_id = alice;
  title = "shop";
  description = "";
  status = "open";
  due_date = none;
}

abbrev as_done : UpdateTaskRequest
as_done = record {
  id = "1#";
  user_id = alice;
  title = "write";
  description = "";
  status = "done";
  due_date = none;
}

serve_isolated_example :
    of_others 3
      (serve uuids tasks (some as_alice) (delete_call (record { id = "1#"; user_id = "" })) table).1
    ≡ of_others 3 table
unfolding values_of
serve_isolated_example =
    serve_isolated uuids tasks (memory-IsGorm stamp_task merge_task) task_table 3 (some as_alice)
      alice (delete_call (record { id = "1#"; user_id = "" })) table refl alice_parsed

nobody : (id : String) → caller none ≡ some id → IsErr (uuids.parse id)
nobody id e = absurd (cc e)

serve-unauthenticated_example :
    (message : String) × (serve uuids tasks none (create_call new_errand) table
      ≡ (err (grpc_status unauthenticated message), table))
serve-unauthenticated_example =
    serve-unauthenticated uuids tasks none (create_call new_errand) table nobody

created : (Service.create uuids tasks new_errand table).0 ≡ ok tt
unfolding Service.create parse_mark Repository.create
created = refl

create_rows_example :
    (Service.create uuids tasks new_errand table).1
    ≡ table ++ stamp_task table (new_task uuids new_errand 3) ∷ []
create_rows_example =
    create_rows uuids tasks (memory-IsGorm stamp_task merge_task) 3 new_errand table alice_parsed
      created

one_parsed : uuids.parse "1#" ≡ ok 1
unfolding parse_mark
one_parsed = refl

updated : (Service.update uuids tasks as_done table).0 ≡ ok tt
unfolding Service.update parse_mark Repository.get_by_id first_row by_id_and_user Repository.update
updated = refl

update_edits_example :
    All
      (HasEdit uuids tasks (memory-IsGorm stamp_task merge_task) task_table as_done 1 3)
      (Service.update uuids tasks as_done table).1
update_edits_example =
    update_edits uuids tasks (memory-IsGorm stamp_task merge_task) task_table as_done 1 3 table
      one_parsed alice_parsed refl refl updated

update_keeps_descriptions_example :
    map (λ (t : Task). t.description) (Service.update uuids tasks as_done table).1
    ≡ map (λ (t : Task). t.description) table
update_keeps_descriptions_example =
    update_keeps_descriptions uuids tasks (memory-IsGorm stamp_task merge_task) task_table as_done
      table refl

listed : Service.get_all uuids tasks alice table ≡ ok (to_task_model uuids alices alice ∷ [])
unfolding Service.get_all parse_mark Repository.get_all by_user to_task_models
listed = refl

listed_after :
    Service.get_all uuids tasks alice (Service.create uuids tasks new_errand table).1
    ≡ ok (
        to_task_model uuids alices alice
        ∷ to_task_model uuids (stamp_task table (new_task uuids new_errand 3)) alice
        ∷ [])
unfolding Service.get_all Service.create parse_mark Repository.create Repository.get_all by_user
    to_task_models new_task
listed_after = refl

found : Service.get_by_id uuids tasks "1#" alice table ≡ ok (to_task_model uuids alices alice)
unfolding Service.get_by_id parse_mark Repository.get_by_id first_row by_id_and_user
found = refl
