-- ===== src/Auth/Users/Effects.antt =====
-- What the methods of backend/auth-service/internal/service/user_service.go do to the table.
use tasktify.Prelude.{
  ◌≡◌, refl, sym, ap, ◌∙◌, String, not, List, [], ◌∷◌, ◌++◌, map, Result, ok, arith, if◌then◌else◌,
  select, Ensures, Ensures-last, Ensures-step, Ensures-bind, ok-injective, select-map,
  select-select,
}
use tasktify.External.Uuid.{Uuid, UuidLib}
use tasktify.External.Gorm.{Gorm, IsGorm, settle, settle_keeps, settle_ok}
use tasktify.External.Bcrypt.{BcryptLib, IsBcrypt}
use tasktify.Auth.Entity.{User, CreateUserRequest, UpdateUserRequest, IsUserTable}
use tasktify.Auth.Repository
use tasktify.Auth.Repository.{by_id}
use tasktify.Auth.Users
use tasktify.Auth.Users.{create_tx, update_tx, delete_tx, edit_user, new_password, new_user}

-- The users that do not have the id.
abbrev pub without : Uuid → List User → List User
without id = select (λ x. not (by_id id x))

module _ {Db : Type 0} (u : UuidLib) (b : BcryptLib) (g : Gorm Db User) {rows : Db → List User}
    {stamp : Db → User → User} {merge : User → User → User} (gorm : IsGorm g rows stamp merge)
    (table : IsUserTable stamp merge) where
  -- The row that Create adds: the request's name and address, and a hash that the password matches.
  pub record IsRegistered (request : CreateUserRequest) (x : User) : Type 0 where
    pub name : x.name ≡ request.name
    pub email : x.email ≡ request.email
    pub password : b.compare x.password request.password ≡ ok tt

  abbrev Adds : CreateUserRequest → List User → Db → Type 0
  Adds request before db = (x : User) × (rows db ≡ before ++ x ∷ []) × IsRegistered request x

  create_tx-Adds :
      (request : CreateUserRequest) (tx : Db)
      → IsBcrypt b
      → Ensures (Adds request (rows tx)) (create_tx u b g request tx)
  unfolding create_tx new_user Repository.create
  create_tx-Adds request tx bcrypt = Ensures-step _ (b.generate request.password) _ λ hashed p.
      Ensures-step _ (g.create (new_user u b request hashed) tx) _ λ tx₁ q.
        Ensures-last _ (g.commit tx₁) λ tx₂ r. (
          stamp tx (new_user u b request hashed),
          gorm.commit_rows tx₁ r ∙ gorm.create_rows _ _ q,
          record {
            name = table.stamp_name _ _;
            email = table.stamp_email _ _;
            password =
                rw (table.stamp_password tx (new_user u b request hashed))
                  (bcrypt.compare_generate _ _ p);
          },
        )

  -- With gorm and bcrypt as documented: a Create that succeeds adds one row at the end, with
  -- the request's name and address and with a hash that the request's password matches.
  pub create_adds :
      (request : CreateUserRequest) (db : Db)
      → IsBcrypt b
      → (Users.create u b g request db).0 ≡ ok tt
      → (x : User) × (rows (Users.create u b g request db).1 ≡ rows db ++ x ∷ [])
        × IsRegistered request x
  unfolding Users.create
  create_adds request db bcrypt done =
      let (x, added, registered) =
        settle_ok (Adds request (rows (g.begin db))) db _ done
          (create_tx-Adds request (g.begin db) bcrypt) in
      (x, added ∙ ap (λ xs. xs ++ x ∷ []) (gorm.begin_rows db), registered)

  module _ (id : Uuid) where
    abbrev KeepsOthers : Db → Db → Type 0
    KeepsOthers db db' = without id (rows db') ≡ without id (rows db)

    without-update :
        (x : User) (xs : List User)
        → x.id ≡ id
        → without id (map (λ r. if by_id x.id r then merge r x else r) xs) ≡ without id xs
    unfolding by_id
    without-update x xs own =
        select-map _ _ (λ r other. ground arith) (λ r mine. ground (arith, table.merge_id r x)) xs

    without-delete :
        (x : User) (xs : List User)
        → x.id ≡ id
        → without id (select (λ r. not (by_id x.id r)) xs) ≡ without id xs
    unfolding by_id
    without-delete x xs own = select-select _ _ (λ r other. ground arith) xs

    pub first-id :
        (asked : Uuid) (x : User) (tx : Db) → g.first (by_id asked) tx ≡ ok x → x.id ≡ asked
    unfolding by_id
    first-id asked x tx r = let (fits, _) = gorm.first_row _ _ r in ground arith

    pub edit_user-id :
        (request : UpdateUserRequest) (x : User)
        → Ensures (λ y. y.id ≡ x.id) (edit_user u b request x)
    unfolding edit_user
    edit_user-id request x =
        Ensures-bind (new_password u b x.password request.password) _
          λ p e. record { at = λ y f. ap (λ (z : User). z.id) (sym (ok-injective f)) }

    update_tx_others :
        (request : UpdateUserRequest) (tx : Db)
        → u.parse request.id ≡ ok id
        → Ensures (KeepsOthers tx) (update_tx u b g request tx)
    unfolding update_tx Repository.update Repository.get_by_id
    update_tx_others request tx parsed = Ensures-step _ (u.parse request.id) _ λ asked p.
        Ensures-step _ (g.first (by_id asked) tx) _ λ x r.
          Ensures-bind (edit_user u b request x) _ λ y e.
            Ensures-step _ (Repository.update g tx y) _ λ tx₁ w.
              Ensures-last _ (g.commit tx₁) λ tx₂ c.
                rw (gorm.commit_rows tx₁ c, gorm.updates_rows _ _ _ w)
                  (without-update y (rows tx) (
                    (edit_user-id request x).at y e
                    ∙ first-id asked x tx r
                    ∙ ok-injective (sym p ∙ parsed)))

    delete_tx_others :
        (text : String) (tx : Db)
        → u.parse text ≡ ok id
        → Ensures (KeepsOthers tx) (delete_tx u b g text tx)
    unfolding delete_tx Repository.delete Repository.get_by_id
    delete_tx_others text tx parsed = Ensures-step _ (u.parse text) _ λ asked p.
        Ensures-step _ (g.first (by_id asked) tx) _ λ x r.
          Ensures-step _ (Repository.delete g tx x) _ λ tx₁ w.
            Ensures-last _ (g.commit tx₁) λ tx₂ c.
              rw (gorm.commit_rows tx₁ c, gorm.delete_rows _ _ w)
                (without-delete x (rows tx) (first-id asked x tx r ∙ ok-injective (sym p ∙ parsed)))

    settle-others :
        (db : Db) (m : Result Db)
        → Ensures (KeepsOthers (g.begin db)) m
        → KeepsOthers db (settle db m).1
    settle-others db m h =
        settle_keeps (KeepsOthers db) db m refl
          (record { at = λ db' e. h.at db' e ∙ ap (without id) (gorm.begin_rows db) })

    -- With gorm as documented: whatever Update does for an id, the users with other ids stay
    -- as they are.
    pub update_others :
        (request : UpdateUserRequest) (db : Db)
        → u.parse request.id ≡ ok id
        → without id (rows (Users.update u b g request db).1) ≡ without id (rows db)
    unfolding Users.update
    update_others request db parsed =
        settle-others db _ (update_tx_others request (g.begin db) parsed)

    -- With gorm as documented: whatever Delete does for an id, the users with other ids stay
    -- as they are.
    pub delete_others :
        (text : String) (db : Db)
        → u.parse text ≡ ok id
        → without id (rows (Users.delete u b g text db).1) ≡ without id (rows db)
    unfolding Users.delete
    delete_others text db parsed = settle-others db _ (delete_tx_others text (g.begin db) parsed)
