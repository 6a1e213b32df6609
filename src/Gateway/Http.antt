-- ===== src/Gateway/Http.antt =====
-- What the handlers of backend/gateway share: the response envelope of internal/model, the errors
-- of fiber, the translation of gRPC statuses, and the error handler of
-- internal/exception/exception.go. A message is kept as it is; the JSON that fiber writes is not
-- modelled further.
use tasktify.Prelude.{
  ℕ, String, Option, none, some, Result, ok, err, panic, or_error, GoError, fiber_error,
  grpc_status, plain, ◌==◌, if◌then◌else◌,
}
use tasktify.Grpc.{from_error, invalid_argument, not_found, unauthenticated}

-- model.Response[T] without an error.
pub record Response (A : Type 0) : Type 0 where
  pub status : ℕ
  pub message : String
  pub body : A

-- The values that the middleware puts into c.Locals.
pub record Locals : Type 0 where
  pub user_id : Option String
  pub user_email : Option String

-- `if err := c.Bind().JSON(&req); err != nil`
unfoldable pub bind : {A : Type 0} → Result A → Result A
bind body = or_error (fiber_error 400 "invalid request body") body

-- `c.Locals("user_id").(string)`, which panics where there is none.
unfoldable pub local_user : Locals → Result String
local_user l = elim l.user_id [ none ↦ panic | some id ↦ ok id ]

-- httpStatusFromGRPCCode of handler/auth_handler.go
unfoldable pub http_status_from_grpc_code : ℕ → ℕ
http_status_from_grpc_code code =
    if code == invalid_argument
    then 400
    else if code == unauthenticated
    then 401
    else if code == not_found
    then 404
    else 500

-- grpcToHTTPError of handler/task_handler.go
unfoldable pub grpc_to_http_error : GoError → GoError
grpc_to_http_error (grpc_status code message) =
    if code == 3
    then fiber_error 400 message
    else if code == 5
    then fiber_error 404 message
    else if code == 16
    then fiber_error 401 message
    else fiber_error 500 message
grpc_to_http_error (fiber_error _ _) = fiber_error 500 "internal server error"
grpc_to_http_error (plain _) = fiber_error 500 "internal server error"

-- A failed call of the client, with its error translated.
unfoldable pub or_translate : {A : Type 0} → (GoError → GoError) → Result A → Result A
or_translate f (ok a) = ok a
or_translate f (err e) = err (f e)
or_translate f panic = panic

-- `if st, ok := status.FromError(err); ok { return fiber.NewError(…, st.Message()) }`, and else
-- 500; `status_of` is the number of the status that the handler picks.
unfoldable pub status_or_500 : (ℕ → ℕ) → GoError → GoError
status_or_500 status_of e = elim (from_error e) [
  | none ↦ fiber_error 500 "internal server error"
  | some (code, message) ↦ fiber_error (status_of code) message
]

-- What the client of the gateway sees: a status, and a message or an error.
pub data Seen (A : Type 0) : Type 0 where
  success : Response A → Seen A
  failure : ℕ → String → Seen A
  crash : Seen A

-- NewErrorHandler, for errors that are not of a validator.
unfoldable pub error_handler : GoError → ℕ × String
error_handler (fiber_error code message) = (code, message)
error_handler (grpc_status _ _) = (500, "Internal Server Error")
error_handler (plain _) = (500, "Internal Server Error")

unfoldable pub see : {A : Type 0} → Result (Response A) → Seen A
unfolding error_handler
see (ok r) = success r
see (err e) = let (code, message) = error_handler e in failure code message
see panic = crash
