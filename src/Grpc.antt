-- ===== src/Grpc.antt =====
-- google.golang.org/grpc: the status codes that the program uses (codes.Code), with the numbers
-- that the package documents, and status.FromError.
use tasktify.Prelude.{ℕ, String, Option, some, none, GoError, grpc_status, fiber_error, plain}

abbrev pub invalid_argument : ℕ
invalid_argument = 3

abbrev pub not_found : ℕ
not_found = 5

abbrev pub internal : ℕ
internal = 13

abbrev pub unauthenticated : ℕ
unauthenticated = 16

-- status.FromError: the code and the message of a status, nothing of another error.
abbrev pub from_error : GoError → Option (ℕ × String)
from_error (grpc_status code message) = some (code, message)
from_error (fiber_error _ _) = none
from_error (plain _) = none
