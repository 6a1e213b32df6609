-- ===== src/Todo/Service/Updates.antt =====
-- What Update of backend/todo-service/internal/service/task_service.go writes.
use tasktify.Prelude.{
  ◌≡◌, refl, sym, ap, ◌∙◌, Bool, true, false, List, [], ◌∷◌, map, ok, arith, if◌then◌else◌, All,
  Ensures, Ensures-last, Ensures-step, ok-injective, str_eq, Bool-cases, inl, inr,
}
use tasktify.External.Uuid.{Uuid, UuidLib}
use tasktify.External.Gorm.{Gorm, IsGorm, settle_ok, settle_keeps}
use tasktify.Todo.Entity.{Task, UpdateTaskRequest, IsTaskTable}
use tasktify.Todo.Repository
use tasktify.Todo.Repository.{by_id_and_user, by_user}
use tasktify.Todo.Service
use tasktify.Todo.Service.{
  create_tx, update_tx, delete_tx, edit_task, new_task, to_task_model, to_task_models,
}

module _ {Db : Type 0} (u : UuidLib) (g : Gorm Db Task) {rows : Db → List Task}
    {stamp : Db → Task → Task} {merge : Task → Task → Task} (gorm : IsGorm g rows stamp merge)
    (table : IsTaskTable stamp merge) where
  -- The rows that Update writes carry the title and the status of the request.
  abbrev pub HasEdit : UpdateTaskRequest → Uuid → Uuid → Task → Type 0
  HasEdit request id user_id t =
      by_id_and_user id user_id t ≡ true → (t.title ≡ request.title) × (t.status ≡ request.status)

  edited_row :
      (request : UpdateTaskRequest) (task t : Task)
      → str_eq request.title "" ≡ false
      → str_eq request.status "" ≡ false
      → HasEdit request task.id task.user_id
          (if by_id_and_user task.id task.user_id t then merge t (edit_task u request task) else t)
  unfolding edit_task by_id_and_user
  edited_row request task t titled stated =
      let new = edit_task u request task in
      ground (arith, table.merge_title t new, table.merge_status t new)

  edited_rows :
      (request : UpdateTaskRequest) (task : Task) (xs : List Task)
      → str_eq request.title "" ≡ false
      → str_eq request.status "" ≡ false
      → All (HasEdit request task.id task.user_id) (
          map
            (λ t.
              if by_id_and_user task.id task.user_id t
              then merge t (edit_task u request task)
              else t)
            xs)
  edited_rows request task [] titled stated = tt
  edited_rows request task (t ∷ ts) titled stated =
      (edited_row request task t titled stated, edited_rows request task ts titled stated)

  first-fits :
      (id owner : Uuid) (task : Task) (tx : Db)
      → g.first (by_id_and_user id owner) tx ≡ ok task
      → (task.id ≡ id) × (task.user_id ≡ owner)
  unfolding by_id_and_user
  first-fits id owner task tx r = let (fits, _) = gorm.first_row _ _ r in ground arith

  update_tx_edits :
      (request : UpdateTaskRequest) (id user_id : Uuid) (tx : Db)
      → u.parse request.id ≡ ok id
      → u.parse request.user_id ≡ ok user_id
      → str_eq request.title "" ≡ false
      → str_eq request.status "" ≡ false
      → Ensures (λ tx'. All (HasEdit request id user_id) (rows tx')) (update_tx u g request tx)
  unfolding update_tx Repository.update Repository.get_by_id edit_task
  update_tx_edits request id user_id tx p q titled stated =
      Ensures-step _ (u.parse request.id) _ λ i p'.
        Ensures-step _ (u.parse request.user_id) _ λ o q'.
          Ensures-step _ (g.first (by_id_and_user i o) tx) _ λ task r.
            Ensures-step _ (Repository.update g tx (edit_task u request task)) _ λ tx₁ w.
              Ensures-last _ (g.commit tx₁) λ tx₂ c.
                let (here, mine) = first-fits i o task tx r in
                let i≡ : id ≡ task.id = ok-injective (sym p ∙ p') ∙ sym here in
                let o≡ : user_id ≡ task.user_id = ok-injective (sym q ∙ q') ∙ sym mine in
                rw (gorm.commit_rows tx₁ c, gorm.updates_rows _ _ _ w, i≡, o≡)
                  (edited_rows request task (rows tx) titled stated)

  -- With gorm as documented: after Update succeeds with a title and a status that are not
  -- empty, every row with the task's id that is the user's has that title and that status.
  pub update_edits :
      (request : UpdateTaskRequest) (id user_id : Uuid) (db : Db)
      → u.parse request.id ≡ ok id
      → u.parse request.user_id ≡ ok user_id
      → str_eq request.title "" ≡ false
      → str_eq request.status "" ≡ false
      → (Service.update u g request db).0 ≡ ok tt
      → All (HasEdit request id user_id) (rows (Service.update u g request db).1)
  unfolding Service.update
  update_edits request id user_id db p q titled stated done =
      settle_ok (λ db'. All (HasEdit request id user_id) (rows db')) db _ done
        (update_tx_edits request id user_id (g.begin db) p q titled stated)

  -- Updates skips an empty description, so no row's description changes.
  merge-descriptions :
      (test : Task → Bool) (new : Task) (xs : List Task)
      → new.description ≡ ""
      → map (λ (t : Task). t.description) (map (λ t. if test t then merge t new else t) xs)
        ≡ map (λ (t : Task). t.description) xs
  merge-descriptions test new [] blank = refl
  merge-descriptions test new (t ∷ ts) blank = elim (Bool-cases (test t)) [
    | inl hit ↦
        rw (hit, table.merge_description t new, blank)
          (ap (λ xs. t.description ∷ xs) (merge-descriptions test new ts blank))
    | inr miss ↦ rw miss (ap (λ xs. t.description ∷ xs) (merge-descriptions test new ts blank))
  ]

  edit_task-description :
      (request : UpdateTaskRequest) (task : Task)
      → (edit_task u request task).description ≡ request.description
  unfolding edit_task
  edit_task-description request task = refl

  update_tx_descriptions :
      (request : UpdateTaskRequest) (tx : Db)
      → request.description ≡ ""
      → Ensures
          (λ tx'.
            map (λ (t : Task). t.description) (rows tx')
            ≡ map (λ (t : Task). t.description) (rows tx))
          (update_tx u g request tx)
  unfolding update_tx Repository.update
  update_tx_descriptions request tx blank = Ensures-step _ (u.parse request.id) _ λ id p.
      Ensures-step _ (u.parse request.user_id) _ λ owner q.
        Ensures-step _ (Repository.get_by_id g tx id owner) _ λ task r.
          Ensures-step _ (Repository.update g tx (edit_task u request task)) _ λ tx₁ w.
            Ensures-last _ (g.commit tx₁) λ tx₂ c.
              rw (gorm.commit_rows tx₁ c, gorm.updates_rows _ _ _ w)
                (merge-descriptions _ _ (rows tx) (edit_task-description request task ∙ blank))

  -- With gorm as documented: Update with an empty description, even where it succeeds, leaves
  -- the descriptions of all rows as they were, so a description cannot be cleared.
  pub update_keeps_descriptions :
      (request : UpdateTaskRequest) (db : Db)
      → request.description ≡ ""
      → map (λ (t : Task). t.description) (rows (Service.update u g request db).1)
        ≡ map (λ (t : Task). t.description) (rows db)
  unfolding Service.update
  update_keeps_descriptions request db blank =
      let Same : Db → Type 0 = λ db'.
        map (λ (t : Task). t.description) (rows db')
        ≡ map (λ (t : Task). t.description) (rows db) in
      settle_keeps Same db _ refl (record {
        at = λ db' e.
            (update_tx_descriptions request (g.begin db) blank).at db' e
            ∙ ap (map (λ (t : Task). t.description)) (gorm.begin_rows db);
      })
