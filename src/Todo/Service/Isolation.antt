-- ===== src/Todo/Service/Isolation.antt =====
-- Tenant isolation of backend/todo-service/internal/service/task_service.go.
use tasktify.Prelude.{
  ◌≡◌, refl, sym, ap, ◌∙◌, not, List, [], ◌∷◌, ◌++◌, map, Result, ok, arith, ◌==◌, ==_refl,
  if◌then◌else◌, select, select-append, Ensures, Ensures-last, Ensures-step, ok-injective,
  select-map, select-select, append-nil,
}
use tasktify.External.Uuid.{Uuid, UuidLib}
use tasktify.External.Gorm.{Gorm, IsGorm, settle, settle_keeps}
use tasktify.Todo.Entity.{Task, CreateTaskRequest, UpdateTaskRequest, TaskRef, IsTaskTable}
use tasktify.Todo.Repository
use tasktify.Todo.Repository.{by_id_and_user}
use tasktify.Todo.Service
use tasktify.Todo.Service.{create_tx, update_tx, delete_tx, edit_task, new_task}

-- The tasks of everybody but one user.
abbrev pub of_others : Uuid → List Task → List Task
of_others user_id = select (λ t. not (t.user_id == user_id))

-- A row of the user added to the table.
others-append :
    (user_id : Uuid) (xs : List Task) (t : Task)
    → t.user_id ≡ user_id
    → of_others user_id (xs ++ t ∷ []) ≡ of_others user_id xs
others-append user_id xs t own = rw (select-append, own, ==_refl) (append-nil _)

module _ {Db : Type 0} (u : UuidLib) (g : Gorm Db Task) {rows : Db → List Task}
    {stamp : Db → Task → Task} {merge : Task → Task → Task} (gorm : IsGorm g rows stamp merge)
    (table : IsTaskTable stamp merge) (user_id : Uuid) where
  -- `merge` with a row of the user keeps the user's rows the user's.
  others-update :
      (task : Task) (xs : List Task)
      → task.user_id ≡ user_id
      → of_others user_id
          (map (λ t. if by_id_and_user task.id task.user_id t then merge t task else t) xs)
        ≡ of_others user_id xs
  unfolding by_id_and_user
  others-update task xs own =
      select-map _ _ (λ t other. ground arith) (λ t mine. ground (arith, table.merge_user t task))
        xs

  others-delete :
      (task : Task) (xs : List Task)
      → task.user_id ≡ user_id
      → of_others user_id (select (λ t. not (by_id_and_user task.id task.user_id t)) xs)
        ≡ of_others user_id xs
  unfolding by_id_and_user
  others-delete task xs own = select-select _ _ (λ t other. ground arith) xs

  edit_task-user :
      (request : UpdateTaskRequest) (task : Task)
      → (edit_task u request task).user_id ≡ task.user_id
  unfolding edit_task
  edit_task-user request task = refl

  -- The row that a method loads is the user's.
  first-owner :
      (id owner : Uuid) (task : Task) (tx : Db)
      → g.first (by_id_and_user id owner) tx ≡ ok task
      → task.user_id ≡ owner
  unfolding by_id_and_user
  first-owner id owner task tx r = let (fits, _) = gorm.first_row _ _ r in ground arith

  abbrev KeepsOthers : Db → Db → Type 0
  KeepsOthers db db' = of_others user_id (rows db') ≡ of_others user_id (rows db)

  create_tx_others :
      (request : CreateTaskRequest) (tx : Db)
      → u.parse request.user_id ≡ ok user_id
      → Ensures (KeepsOthers tx) (create_tx u g request tx)
  unfolding create_tx new_task Repository.create
  create_tx_others request tx parsed = Ensures-step _ (u.parse request.user_id) _ λ owner p.
      Ensures-step _ (g.create (new_task u request owner) tx) _ λ tx₁ q.
        Ensures-last _ (g.commit tx₁) λ tx₂ r.
          rw (gorm.commit_rows tx₁ r, gorm.create_rows _ _ q)
            (others-append user_id (rows tx) _
              (table.stamp_user tx (new_task u request owner) ∙ ok-injective (sym p ∙ parsed)))

  update_tx_others :
      (request : UpdateTaskRequest) (tx : Db)
      → u.parse request.user_id ≡ ok user_id
      → Ensures (KeepsOthers tx) (update_tx u g request tx)
  unfolding update_tx Repository.update Repository.get_by_id
  update_tx_others request tx parsed = Ensures-step _ (u.parse request.id) _ λ id p.
      Ensures-step _ (u.parse request.user_id) _ λ owner q.
        Ensures-step _ (g.first (by_id_and_user id owner) tx) _ λ task r.
          Ensures-step _ (Repository.update g tx (edit_task u request task)) _ λ tx₁ w.
            Ensures-last _ (g.commit tx₁) λ tx₂ c.
              rw (gorm.commit_rows tx₁ c, gorm.updates_rows _ _ _ w)
                (others-update (edit_task u request task) (rows tx) (
                  edit_task-user request task
                  ∙ first-owner id owner task tx r
                  ∙ ok-injective (sym q ∙ parsed)))

  delete_tx_others :
      (request : TaskRef) (tx : Db)
      → u.parse request.user_id ≡ ok user_id
      → Ensures (KeepsOthers tx) (delete_tx u g request tx)
  unfolding delete_tx Repository.delete Repository.get_by_id
  delete_tx_others request tx parsed = Ensures-step _ (u.parse request.id) _ λ id p.
      Ensures-step _ (u.parse request.user_id) _ λ owner q.
        Ensures-step _ (g.first (by_id_and_user id owner) tx) _ λ task r.
          Ensures-step _ (Repository.delete g tx task) _ λ tx₁ w.
            Ensures-last _ (g.commit tx₁) λ tx₂ c.
              rw (gorm.commit_rows tx₁ c, gorm.delete_rows _ _ w)
                (others-delete task (rows tx)
                  (first-owner id owner task tx r ∙ ok-injective (sym q ∙ parsed)))

  settle-others :
      (db : Db) (m : Result Db)
      → Ensures (KeepsOthers (g.begin db)) m
      → KeepsOthers db (settle db m).1
  settle-others db m h =
      settle_keeps (KeepsOthers db) db m refl
        (record { at = λ db' e. h.at db' e ∙ ap (of_others user_id) (gorm.begin_rows db) })

  -- Whatever Create does, the tasks of the users other than the one it acts for stay as they are.
  pub create_isolated :
      (request : CreateTaskRequest) (db : Db)
      → u.parse request.user_id ≡ ok user_id
      → of_others user_id (rows (Service.create u g request db).1) ≡ of_others user_id (rows db)
  unfolding Service.create
  create_isolated request db parsed =
      settle-others db _ (create_tx_others request (g.begin db) parsed)

  -- The same of Update.
  pub update_isolated :
      (request : UpdateTaskRequest) (db : Db)
      → u.parse request.user_id ≡ ok user_id
      → of_others user_id (rows (Service.update u g request db).1) ≡ of_others user_id (rows db)
  unfolding Service.update
  update_isolated request db parsed =
      settle-others db _ (update_tx_others request (g.begin db) parsed)

  -- The same of Delete.
  pub delete_isolated :
      (request : TaskRef) (db : Db)
      → u.parse request.user_id ≡ ok user_id
      → of_others user_id (rows (Service.delete u g request db).1) ≡ of_others user_id (rows db)
  unfolding Service.delete
  delete_isolated request db parsed =
      settle-others db _ (delete_tx_others request (g.begin db) parsed)
