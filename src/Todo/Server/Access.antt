-- ===== src/Todo/Server/Access.antt =====
-- Who may change what through backend/todo-service: the caller named by the metadata, and nobody
-- without a valid name.
use tasktify.Prelude.{
  String, Option, none, some, List, [], ◌∷◌, Result, ok, err, ◌≡◌, refl, arith, IsErr, grpc_status,
  ◌>>=◌, or_error, panic,
}
use tasktify.External.Uuid.{Uuid, UuidLib}
use tasktify.External.Gorm.{Gorm, IsGorm}
use tasktify.Grpc.{unauthenticated}
use tasktify.Todo.Entity.{Task, IsTaskTable}
use tasktify.Todo.Service.Isolation.{of_others, create_isolated, update_isolated, delete_isolated}
use tasktify.Todo.Server.{
  Metadata, Call, create_call, update_call, delete_call, get_call, get_all_call, serve, dispatch,
  check_ids, values_of,
}

abbrev head : List String → Option String
head [] = none
head (id ∷ _) = some id

-- The first value of x-user-id, if there is one.
abbrev pub caller : Option Metadata → Option String
caller none = none
caller (some md) = head (values_of "x-user-id" md)

module _ (u : UuidLib) where
  check_ids-eq-ok :
      (ids : List String) {id : String} {user_id : Uuid}
      → head ids ≡ some id
      → u.parse id ≡ ok user_id
      → check_ids u ids ≡ ok (some id)
  unfolding check_ids
  check_ids-eq-ok [] named p = cc
  check_ids-eq-ok (i ∷ _) named p = ground arith

  check_ids-eq-err :
      (ids : List String)
      → ((id : String) → head ids ≡ some id → IsErr (u.parse id))
      → (message : String) × (check_ids u ids ≡ err (grpc_status unauthenticated message))
  unfolding check_ids
  check_ids-eq-err [] h = ("x-user-id not provided", refl)
  check_ids-eq-err (id ∷ _) h = ("invalid x-user-id", step (u.parse id) (h id refl))
    where
      step :
          (r : Result Uuid)
          → IsErr r
          → (or_error (grpc_status unauthenticated "invalid x-user-id") r >>= λ _. ok (some id))
            ≡ err (grpc_status unauthenticated "invalid x-user-id")
      step (ok a) bad = absurd bad
      step (err e) bad = refl
      step panic bad = absurd bad

module _ {Db : Type 0} (u : UuidLib) (g : Gorm Db Task) {rows : Db → List Task}
    {stamp : Db → Task → Task} {merge : Task → Task → Task} (gorm : IsGorm g rows stamp merge)
    (table : IsTaskTable stamp merge) (user_id : Uuid) where
  dispatch_isolated :
      (call : Call) (id : String) (db : Db)
      → u.parse id ≡ ok user_id
      → of_others user_id (rows (dispatch u g call (some id) db).1) ≡ of_others user_id (rows db)
  unfolding dispatch
  dispatch_isolated (create_call request) id db p =
      ground (arith, create_isolated u g gorm table user_id (record request { user_id = id }) db p)
  dispatch_isolated (update_call request) id db p =
      ground (arith, update_isolated u g gorm table user_id (record request { user_id = id }) db p)
  dispatch_isolated (delete_call request) id db p =
      ground (arith, delete_isolated u g gorm table user_id (record request { user_id = id }) db p)
  dispatch_isolated (get_call request) id db p = ground arith
  dispatch_isolated get_all_call id db p = ground arith

  -- With gorm as documented: a call through the interceptor never changes a task of a user
  -- other than the one whom the metadata name first under x-user-id, whatever ids the request
  -- itself carries.
  pub serve_isolated :
      (md : Option Metadata) (id : String) (call : Call) (db : Db)
      → caller md ≡ some id
      → u.parse id ≡ ok user_id
      → of_others user_id (rows (serve u g md call db).1) ≡ of_others user_id (rows db)
  unfolding serve
  serve_isolated (some md) id call db named p =
      rw (check_ids-eq-ok u (values_of "x-user-id" md) named p, serve)
        (dispatch_isolated call id db p)
  serve_isolated none id call db named p = cc

-- Without metadata, without a value of x-user-id, or with a first value that is no uuid, every
-- call is answered by Unauthenticated and changes nothing.
pub serve-unauthenticated :
    {Db : Type 0} (u : UuidLib) (g : Gorm Db Task) (md : Option Metadata) (call : Call) (db : Db)
    → ((id : String) → caller md ≡ some id → IsErr (u.parse id))
    → (message : String) × (serve u g md call db ≡ (err (grpc_status unauthenticated message), db))
unfolding serve
serve-unauthenticated u g none call db h = ("metadata not provided", refl)
serve-unauthenticated u g (some md) call db h =
    let (message, e) = check_ids-eq-err u (values_of "x-user-id" md) h in (message, rw (e, serve))
