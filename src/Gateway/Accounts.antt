-- ===== src/Gateway/Accounts.antt =====
-- backend/gateway/internal/delivery/http/handler/auth_handler.go and user_handler.go, with the
-- messages of types.go that they read.
use tasktify.Prelude.{panic, String, List, [], ◌∷◌, ◌++◌, Result, ok, err, ◌>>=◌}
use tasktify.Auth.Entity.{CreateUserRequest, UserModel}
use tasktify.Auth.Server.{AuthReply}
use tasktify.Todo.Server.{Metadata, values_of}
use tasktify.Gateway.Http.{
  Response, Locals, bind, local_user, or_translate, status_or_500, http_status_from_grpc_code,
}

pub record SignInRequest : Type 0 where
  pub email : String
  pub password : String
  pub algorithm : String

pub record RefreshTokenRequest : Type 0 where
  pub user_id : String
  pub refresh_token : String

pub record RegisterRequest : Type 0 where
  pub name : String
  pub email : String
  pub password : String

pub record Profile : Type 0 where
  pub id : String
  pub name : String
  pub email : String

-- model.AuthServiceClient and model.UserServiceClient; the first two calls have a trailer.
pub record AccountClient (W : Type 0) : Type 0 where
  pub sign_in : SignInRequest → W → Result AuthReply × Metadata
  pub refresh_token : RefreshTokenRequest → W → Result AuthReply × Metadata
  pub create : CreateUserRequest → W → Result (Unit {0}) × W
  pub get : String → W → Result UserModel

abbrev pub trailers : List (String × String)
trailers =
    ("x-sign-time-ms", "X-Sign-Time-Ms")
    ∷ ("x-access-token-generation-time-ms", "X-Access-Token-Generation-Time-Ms")
    ∷ ("x-refresh-token-generation-time-ms", "X-Refresh-Token-Generation-Time-Ms")
    ∷ ("x-token-generation-time-ms", "X-Token-Generation-Time-Ms")
    ∷ ("x-auth-cpu-pct", "X-Auth-CPU-Pct")
    ∷ ("x-auth-mem-alloc-kb", "X-Auth-Mem-Alloc-KB")
    ∷ ("x-auth-mem-sys-kb", "X-Auth-Mem-Sys-KB")
    ∷ []

-- The headers that c.Set has set, in order.
abbrev pub Headers : Type 0
Headers = List (String × String)

unfoldable pub forward_value : String → List String → Headers
forward_value header [] = []
forward_value header (value ∷ _) = (header, value) ∷ []

-- The loop of forwardAuthTrailers.
unfoldable pub forward_from : List (String × String) → Metadata → Headers
unfolding values_of forward_value
forward_from [] trailer = []
forward_from ((name, header) ∷ rest) trailer =
    forward_value header (values_of name trailer) ++ forward_from rest trailer

unfoldable pub forward_auth_trailers : Metadata → Headers
unfolding forward_from
forward_auth_trailers trailer = forward_from trailers trailer

-- The reply of the two handlers with tokens, and the headers that it sets.
unfoldable pub token_reply :
    String → Result AuthReply × Metadata → Result (Response AuthReply × Headers)
unfolding or_translate status_or_500 http_status_from_grpc_code forward_auth_trailers
token_reply message (r, trailer) =
    or_translate (status_or_500 http_status_from_grpc_code) r >>= λ auth.
    ok (record { status = 200; message = message; body = auth }, forward_auth_trailers trailer)

module _ {W : Type 0} (client : AccountClient W) where
  unfoldable pub sign_in : Result SignInRequest → W → Result (Response AuthReply × Headers)
  unfolding bind token_reply
  sign_in body w = bind body >>= λ req. token_reply "sign in successful" (client.sign_in req w)

  unfoldable pub refresh_token :
      Result RefreshTokenRequest → W → Result (Response AuthReply × Headers)
  unfolding bind token_reply
  refresh_token body w =
      bind body >>= λ req. token_reply "refresh token successful" (client.refresh_token req w)

  -- Register, after its body is read.
  unfoldable pub register_user : RegisterRequest → W → Result (Response (Unit {0})) × W
  unfolding or_translate status_or_500
  register_user req w =
      let (r, w') =
        client.create (record { name = req.name; email = req.email; password = req.password }) w in
      (
        or_translate (status_or_500 (λ _. 400)) r >>= λ _.
            ok (record { status = 201; message = "user registered"; body = tt }),
        w',
      )

  unfoldable pub register : Result RegisterRequest → W → Result (Response (Unit {0})) × W
  unfolding bind register_user
  register body w = elim (bind body) [
    | ok req ↦ register_user req w
    | err e ↦ (err e, w)
    | panic ↦ (panic, w)
  ]

  unfoldable pub get_profile : Locals → W → Result (Response Profile)
  unfolding local_user or_translate status_or_500
  get_profile l w = do
    user_id ← local_user l
    user ← or_translate (status_or_500 (λ _. 404)) (client.get user_id w)
    ok (record {
      status = 200;
      message = "success";
      body = record { id = user.id; name = user.name; email = user.email };
    })
