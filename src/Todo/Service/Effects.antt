-- ===== src/Todo/Service/Effects.antt =====
-- What the methods of backend/todo-service/internal/service/task_service.go write and read.
use mathlib.Core.List.{Perm}
use mathlib.Core.List.Perm
use tasktify.Prelude.{
  String, ◌≡◌, refl, sym, ap, ◌∙◌, true, List, [], ◌∷◌, ◌++◌, map, ok, arith, select, select-append,
  Ensures, Ensures-ok, Ensures-last, Ensures-step, ok-injective, append-nil, append_assoc, In,
  map-append,
}
use tasktify.External.Uuid.{Uuid, UuidLib}
use tasktify.External.Gorm.{Gorm, IsGorm, settle_ok}
use tasktify.Todo.Entity.{Task, CreateTaskRequest, TaskModel, IsTaskTable}
use tasktify.Todo.Repository
use tasktify.Todo.Repository.{by_id_and_user, by_user}
use tasktify.Todo.Service
use tasktify.Todo.Service.{
  create_tx, update_tx, delete_tx, edit_task, new_task, to_task_model, to_task_models,
}

-- The loop of GetAll collects the models of the tasks, in order.
to_task_models-map :
    (u : UuidLib) (tasks : List Task) (user_id : String) (out : List TaskModel)
    → to_task_models u tasks user_id out ≡ out ++ map (λ t. to_task_model u t user_id) tasks
unfolding to_task_models
to_task_models-map u [] user_id out = sym (append-nil out)
to_task_models-map u (t ∷ ts) user_id out =
    to_task_models-map u ts user_id (out ++ to_task_model u t user_id ∷ [])
    ∙ append_assoc out (to_task_model u t user_id ∷ []) (map (λ t. to_task_model u t user_id) ts)

module _ {Db : Type 0} (u : UuidLib) (g : Gorm Db Task) {rows : Db → List Task}
    {stamp : Db → Task → Task} {merge : Task → Task → Task} (gorm : IsGorm g rows stamp merge)
    (user_id : Uuid) where
  create_tx_rows :
      (request : CreateTaskRequest) (tx : Db)
      → u.parse request.user_id ≡ ok user_id
      → Ensures
          (λ tx'. rows tx' ≡ rows tx ++ stamp tx (new_task u request user_id) ∷ [])
          (create_tx u g request tx)
  unfolding create_tx Repository.create
  create_tx_rows request tx parsed = Ensures-step _ (u.parse request.user_id) _ λ owner p.
      Ensures-step _ (g.create (new_task u request owner) tx) _ λ tx₁ q.
        Ensures-last _ (g.commit tx₁) λ tx₂ r.
          let same : owner ≡ user_id = ok-injective (sym p ∙ parsed) in
          rw (gorm.commit_rows tx₁ r, gorm.create_rows _ _ q, same)

  -- After Create succeeds the table holds one more row: the request's, for its user, as stamped.
  pub create_rows :
      (request : CreateTaskRequest) (db : Db)
      → u.parse request.user_id ≡ ok user_id
      → (Service.create u g request db).0 ≡ ok tt
      → rows (Service.create u g request db).1
        ≡ rows db ++ stamp (g.begin db) (new_task u request user_id) ∷ []
  unfolding Service.create
  create_rows request db parsed done =
      settle_ok _ db _ done (create_tx_rows request (g.begin db) parsed)
      ∙ ap (λ xs. xs ++ stamp (g.begin db) (new_task u request user_id) ∷ []) (gorm.begin_rows db)

  get_all-Ensures :
      (id : String) (db : Db)
      → u.parse id ≡ ok user_id
      → Ensures
          (λ models.
            Perm models (map (λ t. to_task_model u t id) (select (by_user user_id) (rows db))))
          (Service.get_all u g id db)
  unfolding Service.get_all Repository.get_all
  get_all-Ensures id db parsed = Ensures-step _ (u.parse id) _ λ owner p.
      Ensures-step _ (g.find (by_user owner) db) _ λ tasks q.
        let same : owner ≡ user_id = ok-injective (sym p ∙ parsed) in
        Ensures-ok _ (
          rw (to_task_models-map u tasks id [], ← same)
            (Perm.map (λ t. to_task_model u t id) (gorm.find_rows _ _ q)))

  -- With gorm as documented: if GetAll answers, it answers with the models of the user's rows,
  -- all of them, in any order.
  pub get_all_rows :
      (id : String) (db : Db) (models : List TaskModel)
      → u.parse id ≡ ok user_id
      → Service.get_all u g id db ≡ ok models
      → Perm models (map (λ t. to_task_model u t id) (select (by_user user_id) (rows db)))
  get_all_rows id db models parsed = (get_all-Ensures id db parsed).at models

  -- A model that GetById answers with is that of a row with the task's id that is the user's.
  abbrev pub IsModelOf : Uuid → String → Db → TaskModel → Type 0
  IsModelOf task_id owner db model =
      (t : Task) × In t (rows db)
      × (t.id ≡ task_id)
      × (t.user_id ≡ user_id)
      × (model ≡ to_task_model u t owner)

  fits-owner :
      (id : Uuid) (owner : String) (t : Task) (db : Db)
      → (by_id_and_user id user_id t ≡ true) × In t (rows db)
      → IsModelOf id owner db (to_task_model u t owner)
  unfolding by_id_and_user
  fits-owner id owner t db (fits, mem) = (t, mem, ground arith, ground arith, refl)

  get_by_id-Ensures :
      (id owner : String) (task_id : Uuid) (db : Db)
      → u.parse id ≡ ok task_id
      → u.parse owner ≡ ok user_id
      → Ensures (IsModelOf task_id owner db) (Service.get_by_id u g id owner db)
  unfolding Service.get_by_id Repository.get_by_id
  get_by_id-Ensures id owner task_id db p q = Ensures-step _ (u.parse id) _ λ i p'.
      Ensures-step _ (u.parse owner) _ λ o q'.
        Ensures-step _ (g.first (by_id_and_user i o) db) _ λ t r.
          let i≡ : i ≡ task_id = ok-injective (sym p' ∙ p) in
          let o≡ : o ≡ user_id = ok-injective (sym q' ∙ q) in
          Ensures-ok _ (fits-owner task_id owner t db (gorm.first_row _ _ (rw (i≡, o≡) at r)))

  -- With gorm as documented: if GetById answers, it answers with the model of a row that has
  -- the id and is the user's.
  pub get_by_id_row :
      (id owner : String) (task_id : Uuid) (db : Db) (model : TaskModel)
      → u.parse id ≡ ok task_id
      → u.parse owner ≡ ok user_id
      → Service.get_by_id u g id owner db ≡ ok model
      → IsModelOf task_id owner db model
  get_by_id_row id owner task_id db model p q = (get_by_id-Ensures id owner task_id db p q).at model

  -- With gorm as documented: after GetAll, Create and GetAll again for one user, all of which
  -- succeed, the second list is the first one and the new task's model, in some order.
  pub create-get_all :
      (request : CreateTaskRequest) (db : Db) {before after : List TaskModel}
      → u.parse request.user_id ≡ ok user_id
      → IsTaskTable stamp merge
      → Service.get_all u g request.user_id db ≡ ok before
      → (Service.create u g request db).0 ≡ ok tt
      → Service.get_all u g request.user_id (Service.create u g request db).1 ≡ ok after
      → Perm after (
          before
          ++ to_task_model u (stamp (g.begin db) (new_task u request user_id)) request.user_id ∷ [])
  unfolding by_user new_task
  create-get_all request db {before} {after} parsed table b done a =
      let model : Task → TaskModel = λ t. to_task_model u t request.user_id in
      let added = stamp (g.begin db) (new_task u request user_id) in
      let own : added.user_id ≡ user_id = table.stamp_user _ _ in
      let kept : select (by_user user_id) (added ∷ []) ≡ added ∷ [] = ground arith in
      let rest = (get_all-Ensures request.user_id db parsed).at before b in
      Perm.trans
        (rw (create_rows request db parsed done, select-append, kept, map-append) at
          ((get_all-Ensures request.user_id _ parsed).at after a))
        (Perm.append_right (model added ∷ []) (Perm.symm rest))
