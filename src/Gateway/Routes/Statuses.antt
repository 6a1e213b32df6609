-- ===== src/Gateway/Routes/Statuses.antt =====
-- The statuses with which the handlers of backend/gateway fail.
use tasktify.Prelude.{
  ℕ, ◌≡◌, inl, inr, refl, String, [], ◌∷◌, Result, ok, err, panic, arith, In, GoError, fiber_error,
  grpc_status, plain, ◌==◌, ◌>>=◌, none, some, subst, Bool, true, false, if◌then◌else◌, or_error,
  err-injective, guard, not, ◌||◌, str_eq,
}
use tasktify.External.Uuid.{UuidLib}
use tasktify.Todo.Server.{Handler, with_ok}
use tasktify.Jwt.Claims.{Moment, token_use_access}
use tasktify.Jwt.Util.{JwtUtil}
use tasktify.Gateway.Http.{
  Locals, bind, local_user, grpc_to_http_error, status_or_500, http_status_from_grpc_code,
  or_translate, Response, error_handler,
}
use tasktify.Gateway.Middleware.{handle, trim_prefix}
use tasktify.Gateway.Tasks
use tasktify.Gateway.Tasks.{TaskClient, reply}
use tasktify.Gateway.Routes.{
  TaskRoute, post_task, get_tasks, get_task, put_task, delete_task, handler_of, tasks_route,
  TaskData, with_data,
}

-- The two translations of a gRPC error into an HTTP error are one function.
pub translations_agree :
    (e : GoError) → grpc_to_http_error e ≡ status_or_500 http_status_from_grpc_code e
unfolding grpc_to_http_error status_or_500 http_status_from_grpc_code
translations_agree (grpc_status code message) = ground arith
translations_agree (fiber_error code message) = refl
translations_agree (plain message) = refl

-- An HTTP error with one of the statuses 400, 401, 404 and 500.
abbrev pub IsHttpError : GoError → Type 0
IsHttpError e =
    (code : ℕ) × (message : String) × (e ≡ fiber_error code message)
    × In code (400 ∷ 401 ∷ 404 ∷ 500 ∷ [])

-- A result that fails, if it does, with such an error.
pub record Fails {A : Type 0} (m : Result A) : Type 0 where
  pub at : (e : GoError) → m ≡ err e → IsHttpError e

code_cases :
    (a b c : Bool) (message : String)
    → IsHttpError (
        if a
        then fiber_error 400 message
        else if b
        then fiber_error 404 message
        else if c
        then fiber_error 401 message
        else fiber_error 500 message)
code_cases true b c message = (400, message, refl, inl refl)
code_cases false true c message = (404, message, refl, inr (inr (inl refl)))
code_cases false false true message = (401, message, refl, inr (inl refl))
code_cases false false false message = (500, message, refl, inr (inr (inr (inl refl))))

pub translated : (e : GoError) → IsHttpError (grpc_to_http_error e)
unfolding grpc_to_http_error
translated (grpc_status code message) = code_cases (code == 3) (code == 5) (code == 16) message
translated (fiber_error _ _) = (500, "internal server error", refl, inr (inr (inr (inl refl))))
translated (plain _) = (500, "internal server error", refl, inr (inr (inr (inl refl))))

pub Fails-bind :
    {A B : Type 0} (m : Result A) (f : A → Result B)
    → Fails m
    → ((a : A) → Fails (f a))
    → Fails (m >>= f)
Fails-bind (ok a) f h k = k a
Fails-bind (err e) f h k = record { at = λ e' p. h.at e' (cc p) }
Fails-bind panic f h k = record { at = λ e' p. absurd (cc p) }

module _ {A B W : Type 0} where
  Fails-with_ok :
      (m : Result A) (h : A → Handler W B) (w : W)
      → Fails m
      → ((a : A) → Fails (h a w).0)
      → Fails (with_ok m h w).0
  unfolding with_ok
  Fails-with_ok (ok a) h w p k = k a
  Fails-with_ok (err e) h w p k = record { at = λ e' q. p.at e' (cc q) }
  Fails-with_ok panic h w p k = record { at = λ e' q. absurd (cc q) }

Fails-reply :
    {A B : Type 0} (r : Result A) (f : A → B)
    → Fails (or_translate grpc_to_http_error r >>= λ a. ok (f a))
unfolding or_translate
Fails-reply (ok a) f = record { at = λ e p. absurd (cc p) }
Fails-reply (err e) f = record { at = λ e' p. subst IsHttpError (err-injective p) (translated e) }
Fails-reply panic f = record { at = λ e p. absurd (cc p) }

pub Fails-bind_body : {A : Type 0} (body : Result A) → Fails (bind body)
unfolding bind
Fails-bind_body (ok a) = record { at = λ e p. absurd (cc p) }
Fails-bind_body (err _) = record {
  at = λ e p. (400, "invalid request body", ground arith, inl refl);
}
Fails-bind_body panic = record { at = λ e p. absurd (cc p) }

pub Fails-local_user : (l : Locals) → Fails (local_user l)
unfolding local_user
Fails-local_user l = elim l.user_id as (λ x. Fails (elim x [ none ↦ panic | some id ↦ ok id ])) [
  | none ↦ record { at = λ e p. absurd (cc p) }
  | some id ↦ record { at = λ e p. absurd (cc p) }
]

pub Fails-ok : {A : Type 0} (a : A) → Fails (ok a)
Fails-ok a = record { at = λ e p. absurd (cc p) }

Fails-guard : (t : Bool) (message : String) → Fails (guard t (fiber_error 401 message))
Fails-guard true message = Fails-ok tt
Fails-guard false message = record { at = λ e p. (401, message, ground arith, inr (inl refl)) }

Fails-or_error :
    {A : Type 0} (message : String) (m : Result A) → Fails (or_error (fiber_error 401 message) m)
Fails-or_error message (ok a) = Fails-ok a
Fails-or_error message (err _) = record { at = λ e p. (401, message, ground arith, inr (inl refl)) }
Fails-or_error message panic = record { at = λ e p. absurd (cc p) }

pub handle-Fails :
    (util : JwtUtil) (u : UuidLib) (at : Moment) (header : String) → Fails (handle util u at header)
unfolding handle
handle-Fails util u at header =
    Fails-bind (guard (not (str_eq header "")) _) _ (Fails-guard _ _) λ _.
      Fails-bind (guard (not (str_eq (trim_prefix header "Bearer ") header)) _) _ (Fails-guard _ _)
        λ _.
          Fails-bind (or_error _ (util.parse at (trim_prefix header "Bearer "))) _
            (Fails-or_error _ _)
            λ claims.
              Fails-bind
                (guard (str_eq claims.token_use "" || str_eq claims.token_use token_use_access) _) _
                (Fails-guard _ _) λ _. Fails-ok _

-- A reply as the group's reply.
Fails-with_data :
    {A W : Type 0} (f : A → TaskData) (r : Result (Response A) × W)
    → Fails (r.0)
    → Fails (with_data f r).0
Fails-with_data f (r, w) h = Fails-bind r _ h λ a. Fails-ok _

module _ {W : Type 0} (client : TaskClient W) where
  handler-Fails : (route : TaskRoute) (l : Locals) (w : W) → Fails (handler_of client route l w).0
  unfolding handler_of Tasks.create Tasks.get_all Tasks.get_by_id Tasks.update Tasks.delete reply
  handler-Fails (post_task body) l w = Fails-with_data _ (Tasks.create client l body w) (
      Fails-with_ok (bind body) _ w (Fails-bind_body body)
        λ req. Fails-with_ok (local_user l) _ w (Fails-local_user l) λ id. Fails-reply _ _)
  handler-Fails get_tasks l w =
      Fails-with_data _ (Tasks.get_all client l w)
        (Fails-with_ok (local_user l) _ w (Fails-local_user l) λ id. Fails-reply _ _)
  handler-Fails (get_task task) l w =
      Fails-with_data _ (Tasks.get_by_id client l task w)
        (Fails-with_ok (local_user l) _ w (Fails-local_user l) λ id. Fails-reply _ _)
  handler-Fails (put_task task body) l w = Fails-with_data _ (Tasks.update client l task body w) (
      Fails-with_ok (bind body) _ w (Fails-bind_body body)
        λ req. Fails-with_ok (local_user l) _ w (Fails-local_user l) λ id. Fails-reply _ _)
  handler-Fails (delete_task task) l w =
      Fails-with_data _ (Tasks.delete client l task w)
        (Fails-with_ok (local_user l) _ w (Fails-local_user l) λ id. Fails-reply _ _)

  -- Whatever the task service answers, a request to /api/tasks that fails is answered by the error
  -- handler with one of the statuses 400, 401, 404 and 500.
  pub tasks_route-IsHttpError :
      (util : JwtUtil) (u : UuidLib) (at : Moment) (header : String) (route : TaskRoute) (w : W)
      (e : GoError)
      → (tasks_route client util u at header route w).0 ≡ err e
      → (In (error_handler e).0 (400 ∷ 401 ∷ 404 ∷ 500 ∷ []))
        × (e ≡ fiber_error (error_handler e).0 (error_handler e).1)
  unfolding tasks_route error_handler
  tasks_route-IsHttpError util u at header route w e failed =
      let f : Fails (tasks_route client util u at header route w).0 =
        Fails-with_ok (handle util u at header) (handler_of client route) w
          (handle-Fails util u at header) λ l. handler-Fails route l w in
      let (code, message, is, listed) = f.at e failed in rw is (listed, refl)
