-- ===== src/Todo/Entity.antt =====
-- backend/todo-service/internal/entity/task_entity.go and the messages of proto/task.proto that the
-- service reads and writes. A column of the type int64 is an integer.
use tasktify.Prelude.{String, Option, ◌≡◌, if◌then◌else◌, ◌==◌, str_eq}
use tasktify.Prelude.Int.{ℤ}
use tasktify.External.Uuid.{Uuid}
use tasktify.Times.{Timestamp}

pub record Task : Type 0 where
  pub id : Uuid
  pub title : String
  pub description : String
  pub status : String
  pub due_date : ℤ
  pub user_id : Uuid
  pub created_at : ℤ
  pub updated_at : ℤ

pub record CreateTaskRequest : Type 0 where
  pub user_id : String
  pub title : String
  pub description : String
  pub status : String
  pub due_date : Option Timestamp

pub record UpdateTaskRequest : Type 0 where
  pub id : String
  pub user_id : String
  pub title : String
  pub description : String
  pub status : String
  pub due_date : Option Timestamp

-- DeleteTaskRequest and GetTaskRequest
pub record TaskRef : Type 0 where
  pub id : String
  pub user_id : String

-- model.Task
pub record TaskModel : Type 0 where
  pub id : String
  pub title : String
  pub description : String
  pub status : String
  pub due_date : Option Timestamp
  pub user_id : String
  pub created_at : Option Timestamp
  pub updated_at : Option Timestamp

-- What gorm documents for this entity: `Create` fills the id and the times and keeps the rest;
-- `Updates` with a struct writes the fields that are not zero and keeps the others.
pub record IsTaskTable {Db : Type 0} (stamp : Db → Task → Task) (merge : Task → Task → Task)
    : Type 0 where
  pub stamp_user : (db : Db) (t : Task) → (stamp db t).user_id ≡ t.user_id
  pub stamp_title : (db : Db) (t : Task) → (stamp db t).title ≡ t.title
  pub stamp_description : (db : Db) (t : Task) → (stamp db t).description ≡ t.description
  pub stamp_status : (db : Db) (t : Task) → (stamp db t).status ≡ t.status
  pub stamp_due_date : (db : Db) (t : Task) → (stamp db t).due_date ≡ t.due_date
  pub merge_id : (old new : Task) → (merge old new).id ≡ old.id
  pub merge_user :
      (old new : Task)
      → (merge old new).user_id ≡ (if new.user_id == 0 then old.user_id else new.user_id)
  pub merge_title :
      (old new : Task)
      → (merge old new).title ≡ (if str_eq new.title "" then old.title else new.title)
  pub merge_description :
      (old new : Task)
      → (merge old new).description
        ≡ (if str_eq new.description "" then old.description else new.description)
  pub merge_status :
      (old new : Task)
      → (merge old new).status ≡ (if str_eq new.status "" then old.status else new.status)
