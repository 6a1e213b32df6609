-- ===== src/Examples/Gateway.antt =====
-- The theorems on backend/gateway at requests with the two tokens of the examples.
use tasktify.Prelude.{
  ℕ, suc, ◌≡◌, ◌≢◌, refl, String, some, [], ◌∷◌, ok, err, str_eq, eq_iff, ok-injective, sym, ap,
  arith, false, fiber_error, grpc_status, In,
}
use tasktify.Prelude.Int.{pos, negsuc}
use tasktify.Jwt.Claims.{JwtClaims, new_claims}
use tasktify.Times.{unix_milli, as_time, timestamp, of_unix_milli, unix_milli-of_unix_milli}
use tasktify.Todo.Service.{new_task, to_task_model}
use tasktify.Todo.Service.Isolation.{of_others}
use tasktify.Gateway.Http.{local_user, or_translate, status_or_500, error_handler}
use tasktify.Gateway.Middleware.{handle, trim_prefix}
use tasktify.Gateway.Tasks.{TaskBody, create_request, to_task_response, task_client}
use tasktify.Gateway.Routes.{delete_task, get_tasks, tasks_route}
use tasktify.Gateway.Accounts
use tasktify.Gateway.Accounts.{AccountClient}
use tasktify.Gateway.Routes.Accounts.{read_profile, accounts_route, accounts_route-IsHttpError}
use tasktify.Gateway.Routes.Access.{IsPassed, handle_sound}
use tasktify.Gateway.Routes.Statuses.{tasks_route-IsHttpError}
use tasktify.Gateway.Routes.Isolation.{tasks_route_isolated}
use tasktify.Gateway.Routes.DueDates.{due_date_kept}
use tasktify.Examples.Memory.{tasks, stamp_task, merge_task, task_table, memory-IsGorm}
use tasktify.Examples.Uuids.{uuids, uuids-IsUuidLib, render_mark}
use tasktify.Examples.Jwt.{later}
use tasktify.Examples.Auth.{two_tokens}
use tasktify.Examples.Todo.{table}

differ : (s t : String) → str_eq s t ≡ false → s ≢ t
differ s t e f = absurd (ground (arith, eq_iff s t))

pub passed :
    handle two_tokens uuids later "Bearer access"
    ≡ ok (record { user_id = some "111#"; user_email = some "alice@example.org" })
unfolding handle trim_prefix new_claims render_mark
passed = refl

handle_sound_example :
    IsPassed two_tokens uuids later "Bearer access"
      (record { user_id = some "111#"; user_email = some "alice@example.org" })
handle_sound_example =
    handle_sound two_tokens uuids later "Bearer access"
      (record { user_id = some "111#"; user_email = some "alice@example.org" }) passed

refused :
    (tasks_route (task_client uuids tasks) two_tokens uuids later "" get_tasks table).0
    ≡ err (fiber_error 401 "authorization header required")
unfolding tasks_route handle
refused = refl

tasks_route-IsHttpError_example :
    (In
      (error_handler (fiber_error 401 "authorization header required")).0
      (400 ∷ 401 ∷ 404 ∷ 500 ∷ []))
    × (fiber_error 401 "authorization header required"
        ≡ fiber_error
            (error_handler (fiber_error 401 "authorization header required")).0
            (error_handler (fiber_error 401 "authorization header required")).1)
tasks_route-IsHttpError_example =
    tasks_route-IsHttpError (task_client uuids tasks) two_tokens uuids later "" get_tasks table
      (fiber_error 401 "authorization header required") refused

of_alice :
    (c : JwtClaims)
    → two_tokens.parse later (trim_prefix "Bearer access" "Bearer ") ≡ ok c
    → c.user_id ≡ 3
unfolding trim_prefix new_claims
of_alice c e = ap (λ (x : JwtClaims). x.user_id) (sym (ok-injective e))

tasks_route_isolated_example :
    of_others 3
      (tasks_route
        (task_client uuids tasks)
        two_tokens
        uuids
        later
        "Bearer access"
        (delete_task "11#")
        table).1
    ≡ of_others 3 table
tasks_route_isolated_example =
    tasks_route_isolated uuids uuids-IsUuidLib tasks (memory-IsGorm stamp_task merge_task)
      task_table 3 two_tokens later "Bearer access" (delete_task "11#") table of_alice

abbrev pub body : TaskBody
body = record {
  title = "shop";
  description = "";
  status = "open";
  due_date = some (pos 1_700_000_060_123);
}

due_date_kept_example :
    (to_task_response (
      to_task_model uuids
        (stamp_task table (new_task uuids (create_request "111#" body) 3))
        "111#")).due_date
    ≡ pos 1_700_000_060_123
due_date_kept_example =
    due_date_kept uuids task_table table "111#" 3 body (pos 1_700_000_060_123) (ground arith) refl
      refl

unix_milli-of_unix_milli_example :
    unix_milli (as_time (timestamp (of_unix_milli (negsuc 1_500)))) ≡ negsuc 1_500
unix_milli-of_unix_milli_example = unix_milli-of_unix_milli (negsuc 1_500) (ground arith)

-- A client whose service knows nobody.
abbrev nobody : AccountClient ℕ
nobody = record {
  sign_in = λ req w. (err (grpc_status 16 "invalid email or password"), []);
  refresh_token = λ req w. (err (grpc_status 16 "invalid refresh token"), []);
  create = λ req w. (ok tt, suc w);
  get = λ id w. err (grpc_status 5 "user not found");
}

no_profile :
    (accounts_route nobody two_tokens uuids later "Bearer access" read_profile 0).0
    ≡ err (fiber_error 404 "user not found")
unfolding accounts_route trim_prefix local_user or_translate status_or_500 Accounts.get_profile
no_profile = refl

accounts_route-IsHttpError_example :
    (In (error_handler (fiber_error 404 "user not found")).0 (400 ∷ 401 ∷ 404 ∷ 500 ∷ []))
    × (fiber_error 404 "user not found"
        ≡ fiber_error
            (error_handler (fiber_error 404 "user not found")).0
            (error_handler (fiber_error 404 "user not found")).1)
accounts_route-IsHttpError_example =
    accounts_route-IsHttpError nobody two_tokens uuids later "Bearer access" read_profile 0
      (fiber_error 404 "user not found") no_profile
