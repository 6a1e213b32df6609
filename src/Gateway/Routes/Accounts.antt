-- ===== src/Gateway/Routes/Accounts.antt =====
-- backend/gateway/internal/delivery/http/route/route.go: the routes of accounts, and the statuses
-- with which they fail.
use tasktify.Prelude.{
  ℕ, ◌≡◌, inl, inr, refl, String, [], ◌∷◌, Result, ok, err, panic, ◌>>=◌, In, GoError, fiber_error,
  grpc_status, plain, subst, err-injective,
}
use tasktify.External.Uuid.{UuidLib}
use tasktify.Jwt.Claims.{Moment}
use tasktify.Jwt.Util.{JwtUtil}
use tasktify.Auth.Server.{AuthReply}
use tasktify.Gateway.Http.{
  Response, Locals, bind, local_user, or_translate, status_or_500, http_status_from_grpc_code,
  error_handler,
}
use tasktify.Gateway.Middleware.{handle}
use tasktify.Gateway.Accounts
use tasktify.Gateway.Accounts.{
  AccountClient, SignInRequest, RefreshTokenRequest, RegisterRequest, Profile, Headers, token_reply,
  register_user,
}
use tasktify.Gateway.Routes.Statuses.{
  IsHttpError, Fails, Fails-bind, Fails-bind_body, Fails-local_user, Fails-ok, handle-Fails,
  translated, translations_agree,
}

pub data AccountRoute : Type 0 where
  post_signin : Result SignInRequest → AccountRoute
  post_refresh : Result RefreshTokenRequest → AccountRoute
  post_register : Result RegisterRequest → AccountRoute
  read_profile : AccountRoute

-- What a response of these routes carries.
pub data AccountData : Type 0 where
  no_account : AccountData
  tokens : AuthReply → Headers → AccountData
  profile : Profile → AccountData

abbrev with_account :
    {A : Type 0} → (A → AccountData) → Result (Response A) → Result (Response AccountData)
with_account f r =
    r >>= λ a. ok (record { status = a.status; message = a.message; body = f a.body })

abbrev with_tokens : Result (Response AuthReply × Headers) → Result (Response AccountData)
with_tokens r = r >>= λ p.
    ok (record { status = p.0.status; message = p.0.message; body = tokens p.0.body p.1 })

module _ {W : Type 0} (client : AccountClient W) where
  -- A request to /api/auth or /api/profile; only the last has the middleware before it.
  unfoldable pub accounts_route :
      JwtUtil → UuidLib → Moment → String → AccountRoute → W → Result (Response AccountData) × W
  unfolding handle
  accounts_route util u at header (post_signin body) w =
      (with_tokens (Accounts.sign_in client body w), w)
  accounts_route util u at header (post_refresh body) w =
      (with_tokens (Accounts.refresh_token client body w), w)
  accounts_route util u at header (post_register body) w =
      let (r, w') = Accounts.register client body w in (with_account (λ _. no_account) r, w')
  accounts_route util u at header read_profile w =
      (handle util u at header >>= λ l. with_account profile (Accounts.get_profile client l w), w)

-- A translation into HTTP errors, applied to a reply.
Fails-or_translate :
    {A : Type 0} (f : GoError → GoError) (r : Result A)
    → ((e : GoError) → IsHttpError (f e))
    → Fails (or_translate f r)
unfolding or_translate
Fails-or_translate f (ok a) each = Fails-ok a
Fails-or_translate f (err e) each = record {
  at = λ e' p. subst IsHttpError (err-injective p) (each e);
}
Fails-or_translate f panic each = record { at = λ e p. absurd (cc p) }

by_code : (e : GoError) → IsHttpError (status_or_500 http_status_from_grpc_code e)
by_code e = subst IsHttpError (translations_agree e) (translated e)

-- A fixed status for every gRPC error.
fixed :
    (n : ℕ)
    → In n (400 ∷ 401 ∷ 404 ∷ 500 ∷ [])
    → (e : GoError) → IsHttpError (status_or_500 (λ _. n) e)
unfolding status_or_500
fixed n listed (grpc_status code message) = (n, message, refl, listed)
fixed n listed (fiber_error _ _) = (500, "internal server error", refl, inr (inr (inr (inl refl))))
fixed n listed (plain _) = (500, "internal server error", refl, inr (inr (inr (inl refl))))

module _ {W : Type 0} (client : AccountClient W) where
  sign_in-Fails : (body : Result SignInRequest) (w : W) → Fails (Accounts.sign_in client body w)
  unfolding Accounts.sign_in token_reply
  sign_in-Fails body w = Fails-bind (bind body) _ (Fails-bind_body body) λ req.
      Fails-bind (or_translate _ (client.sign_in req w).0) _ (Fails-or_translate _ _ by_code)
        λ _. Fails-ok _

  refresh-Fails :
      (body : Result RefreshTokenRequest) (w : W) → Fails (Accounts.refresh_token client body w)
  unfolding Accounts.refresh_token token_reply
  refresh-Fails body w = Fails-bind (bind body) _ (Fails-bind_body body) λ req.
      Fails-bind (or_translate _ (client.refresh_token req w).0) _ (Fails-or_translate _ _ by_code)
        λ _. Fails-ok _

  register_user-Fails : (req : RegisterRequest) (w : W) → Fails (register_user client req w).0
  unfolding register_user
  register_user-Fails req w =
      Fails-bind (or_translate _ _) _ (Fails-or_translate _ _ (fixed 400 (inl refl)))
        λ _. Fails-ok _

  profile-Fails : (l : Locals) (w : W) → Fails (Accounts.get_profile client l w)
  unfolding Accounts.get_profile
  profile-Fails l w = Fails-bind (local_user l) _ (Fails-local_user l) λ id.
      Fails-bind (or_translate _ (client.get id w)) _
        (Fails-or_translate _ _ (fixed 404 (inr (inr (inl refl))))) λ _. Fails-ok _

  register-Fails :
      (body : Result RegisterRequest) (w : W) → Fails (Accounts.register client body w).0
  unfolding Accounts.register bind
  register-Fails (ok req) w = register_user-Fails req w
  register-Fails (err e) w = record {
    at = λ e' p. (Fails-bind_body {A = RegisterRequest} (err e)).at e' (cc p);
  }
  register-Fails panic w = record { at = λ e p. absurd (cc p) }

  route-Fails :
      (util : JwtUtil) (u : UuidLib) (at : Moment) (header : String) (route : AccountRoute) (w : W)
      → Fails (accounts_route client util u at header route w).0
  unfolding accounts_route
  route-Fails util u at header (post_signin body) w =
      Fails-bind (Accounts.sign_in client body w) _ (sign_in-Fails body w) λ _. Fails-ok _
  route-Fails util u at header (post_refresh body) w =
      Fails-bind (Accounts.refresh_token client body w) _ (refresh-Fails body w) λ _. Fails-ok _
  route-Fails util u at header (post_register body) w =
      Fails-bind (Accounts.register client body w).0 _ (register-Fails body w) λ _. Fails-ok _
  route-Fails util u at header read_profile w =
      Fails-bind (handle util u at header) _ (handle-Fails util u at header)
        λ l. Fails-bind (Accounts.get_profile client l w) _ (profile-Fails l w) λ _. Fails-ok _

  -- Whatever the auth service answers, a request to /api/auth or /api/profile that fails is
  -- answered by the error handler with one of the statuses 400, 401, 404 and 500.
  pub accounts_route-IsHttpError :
      (util : JwtUtil) (u : UuidLib) (at : Moment) (header : String) (route : AccountRoute) (w : W)
      (e : GoError)
      → (accounts_route client util u at header route w).0 ≡ err e
      → (In (error_handler e).0 (400 ∷ 401 ∷ 404 ∷ 500 ∷ []))
        × (e ≡ fiber_error (error_handler e).0 (error_handler e).1)
  unfolding error_handler
  accounts_route-IsHttpError util u at header route w e failed =
      let (code, message, is, listed) = (route-Fails util u at header route w).at e failed in
      rw is (listed, refl)
