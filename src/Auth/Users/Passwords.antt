-- ===== src/Auth/Users/Passwords.antt =====
-- Which passwords match the rows that backend/auth-service/internal/service/user_service.go writes.
use tasktify.Prelude.{
  ◌≡◌, ◌≢◌, ◌⊎◌, inl, inr, sym, ap, ◌∙◌, Bool, false, List, [], ◌∷◌, ◌++◌, map, ok, arith,
  if◌then◌else◌, str_eq, select, Ensures, Ensures-last, Ensures-step, Ensures-bind, ok-injective,
  All, In, eq_iff, Bool-cases,
}
use tasktify.External.Uuid.{Uuid, UuidLib}
use tasktify.External.Gorm.{Gorm, IsGorm, settle_ok}
use tasktify.External.Bcrypt.{BcryptLib, IsBcrypt}
use tasktify.Auth.Entity.{User, CreateUserRequest, UpdateUserRequest, IsUserTable}
use tasktify.Auth.Repository
use tasktify.Auth.Repository.{by_id, by_email}
use tasktify.Auth.Users
use tasktify.Auth.Users.{update_tx, edit_user, new_password}
use tasktify.Auth.Users.Effects.{create_adds, first-id, edit_user-id}

In-append : {A : Type 0} (a : A) (xs : List A) (y : A) → In a (xs ++ y ∷ []) → In a xs ⊎ (a ≡ y)
In-append a [] y (inl here) = inr here
In-append a [] y (inr n) = elim n [ ]
In-append a (x ∷ xs) y (inl here) = inl (inl here)
In-append a (x ∷ xs) y (inr i) = elim (In-append a xs y i) [
  | inl old ↦ inl (inr old)
  | inr new ↦ inr new
]

-- What holds of each row that is rewritten holds of the rows that the test selects afterwards.
selected :
    {A : Type 0} (P : A → Type 0) (q : A → Bool) (h : A → A)
    → ((x : A) → P (h x))
    → (xs : List A) → All P (select q (map (λ x. if q x then h x else x) xs))
selected P q h each [] = tt
selected P q h each (x ∷ xs) = elim (Bool-cases (q x)) [
  | inl hit ↦ elim (Bool-cases (q (h x))) [
    | inl kept ↦ rw (hit, kept) (each x, selected P q h each xs)
    | inr gone ↦ rw (hit, gone) (selected P q h each xs)
  ]
  | inr miss ↦ rw (miss, miss) (selected P q h each xs)
]

module _ {Db : Type 0} (u : UuidLib) (b : BcryptLib) (g : Gorm Db User) {rows : Db → List User}
    {stamp : Db → User → User} {merge : User → User → User} (gorm : IsGorm g rows stamp merge)
    (table : IsUserTable stamp merge) where
  -- With gorm and bcrypt as documented: after a Create that succeeds, with an address that no
  -- user had, whoever GetByEmail finds for the address has the request's name, and the
  -- request's password matches the stored hash.
  pub create-get_by_email :
      (request : CreateUserRequest) (db : Db) (found : User)
      → IsBcrypt b
      → ((x : User) → In x (rows db) → x.email ≢ request.email)
      → (Users.create u b g request db).0 ≡ ok tt
      → Repository.get_by_email g (Users.create u b g request db).1 request.email ≡ ok found
      → (found.name ≡ request.name) × (b.compare found.password request.password ≡ ok tt)
  unfolding Repository.get_by_email by_email
  create-get_by_email request db found bcrypt free done is =
      let (x, added, registered) = create_adds u b g gorm table request db bcrypt done in
      let (fits, stored) = gorm.first_row _ _ is in
      let same : found.email ≡ request.email = ground (arith, eq_iff found.email request.email) in
      elim (In-append found (rows db) x (rw added at stored)) [
        | inl old ↦ absurd (free found old same)
        | inr new ↦ rw new (registered.name, registered.password)
      ]

  Matches : UpdateUserRequest → User → Type 0
  Matches request x = b.compare x.password request.password ≡ ok tt

  edit_user-password :
      (request : UpdateUserRequest) (x : User)
      → IsBcrypt b
      → request.password ≢ ""
      → Ensures
          (λ y. (y.password ≢ "") × (b.compare y.password request.password ≡ ok tt))
          (edit_user u b request x)
  unfolding edit_user new_password
  edit_user-password request x bcrypt given =
      let filled : str_eq request.password "" ≡ false =
        ground (arith, eq_iff request.password "") in
      rw filled (
        Ensures-step _ (b.generate request.password) _ λ hash p. record {
          at = λ y e.
              let same : hash ≡ y.password = ap (λ (z : User). z.password) (ok-injective e) in
              rw (← same) (bcrypt.generate_filled _ _ p, bcrypt.compare_generate _ _ p);
        })

  merged :
      (old new : User) (request : UpdateUserRequest)
      → new.password ≢ ""
      → b.compare new.password request.password ≡ ok tt
      → Matches request (merge old new)
  unfolding Matches
  merged old new request filled matches =
      let given : str_eq new.password "" ≡ false = ground (arith, eq_iff new.password "") in
      rw (table.merge_password old new, given) matches

  update_tx-Matches :
      (request : UpdateUserRequest) (id : Uuid) (tx : Db)
      → IsBcrypt b
      → request.password ≢ ""
      → u.parse request.id ≡ ok id
      → Ensures
          (λ tx'. All (Matches request) (select (by_id id) (rows tx')))
          (update_tx u b g request tx)
  unfolding update_tx Repository.update Repository.get_by_id Matches
  update_tx-Matches request id tx bcrypt given parsed =
      Ensures-step _ (u.parse request.id) _ λ asked p.
        Ensures-step _ (g.first (by_id asked) tx) _ λ x r.
          Ensures-bind (edit_user u b request x) _ λ y e.
            Ensures-step _ (Repository.update g tx y) _ λ tx₁ w.
              Ensures-last _ (g.commit tx₁) λ tx₂ c.
                let id≡ : y.id ≡ id =
                  (edit_user-id u b g gorm table id request x).at y e
                  ∙ first-id u b g gorm table id asked x tx r
                  ∙ ok-injective (sym p ∙ parsed) in
                let (filled, matches) = (edit_user-password request x bcrypt given).at y e in
                rw (gorm.commit_rows tx₁ c, gorm.updates_rows _ _ _ w, ← id≡)
                  (selected (Matches request) (by_id y.id) (λ old. merge old y)
                    (λ old. merged old y request filled matches) (rows tx))

  -- With gorm and bcrypt as documented: after an Update that succeeds with a password that is
  -- not empty, that password matches the hash of every row with the request's id.
  pub update_password :
      (request : UpdateUserRequest) (id : Uuid) (db : Db)
      → IsBcrypt b
      → request.password ≢ ""
      → u.parse request.id ≡ ok id
      → (Users.update u b g request db).0 ≡ ok tt
      → All
          (λ (x : User). b.compare x.password request.password ≡ ok tt)
          (select (by_id id) (rows (Users.update u b g request db).1))
  unfolding Users.update Matches
  update_password request id db bcrypt given parsed done =
      settle_ok (λ db'. All (Matches request) (select (by_id id) (rows db'))) db _ done
        (update_tx-Matches request id (g.begin db) bcrypt given parsed)
