-- ===== src/Gateway/Routes/Trailers.antt =====
-- The measurements of backend/auth-service on their way to the headers of backend/gateway.
use tasktify.Prelude.{◌≡◌, refl, String, [], ◌∷◌, Result, ok, lookup}
use tasktify.External.Uuid.{UuidLib}
use tasktify.External.Gorm.{Gorm}
use tasktify.External.Bcrypt.{BcryptLib}
use tasktify.Jwt.Claims.{Moment}
use tasktify.Jwt.Util.{JwtUtil}
use tasktify.Todo.Server.{values_of}
use tasktify.Auth.Entity.{User}
use tasktify.Auth.Session
use tasktify.Auth.Session.{TokenPair, Moments}
use tasktify.Auth.Server
use tasktify.Auth.Server.{auth_reply}
use tasktify.Auth.Metering
use tasktify.Auth.Metering.{
  MeterFloats, Instants, Reading, RuntimeStatsState, answer_with_trailers, timings_of,
  collect_runtime_stats, set_auth_trailers,
}
use tasktify.Gateway.Http.{bind, or_translate}
use tasktify.Gateway.Accounts
use tasktify.Gateway.Accounts.{
  AccountClient, SignInRequest, RefreshTokenRequest, token_reply, forward_auth_trailers,
  forward_from, forward_value, trailers, Headers,
}

module _ {F : Type 0} (f : MeterFloats F) (util : JwtUtil) {Db : Type 0} (g : Gorm Db User)
    (b : BcryptLib) (u : UuidLib) (algorithm_of : String → Result String) (now : Moment)
    (at : Moments) (i : Instants) (r : Reading F) (state : RuntimeStatsState F) where
  -- The client whose calls reach the auth-service at a moment.
  unfoldable pub account_client : AccountClient Db
  account_client = record {
    sign_in = λ req db.
        (Metering.sign_in f util g i r b at req.email req.password req.algorithm db state).0;
    refresh_token = λ req db.
        (Metering.refresh_token f util g i r u algorithm_of now at req.user_id req.refresh_token db
          state).0;
    create = λ req db. Server.create u g b req db;
    get = λ id db. Server.get u g b id db;
  }

  -- The headers with the times of generating the two tokens, their sum, and the statistics; the
  -- time of the access token is shown twice.
  abbrev pub measured : Headers
  measured =
      let t = timings_of f i in
      let s = (collect_runtime_stats f r state).0 in
      ("X-Sign-Time-Ms", f.shown t.access_token_ms)
      ∷ ("X-Access-Token-Generation-Time-Ms", f.shown t.access_token_ms)
      ∷ ("X-Refresh-Token-Generation-Time-Ms", f.shown t.refresh_token_ms)
      ∷ ("X-Token-Generation-Time-Ms", f.shown t.total_ms)
      ∷ ("X-Auth-CPU-Pct", f.shown s.cpu_pct)
      ∷ ("X-Auth-Mem-Alloc-KB", f.shown s.memory_alloc_kb)
      ∷ ("X-Auth-Mem-Sys-KB", f.shown s.memory_sys_kb)
      ∷ []

  forwarded :
      forward_auth_trailers
        (set_auth_trailers f (timings_of f i) (collect_runtime_stats f r state).0)
      ≡ measured
  unfolding forward_auth_trailers forward_from forward_value values_of lookup set_auth_trailers
  forwarded = refl

  -- A sign-in that the service answers with tokens is answered by the gateway with the status 200,
  -- the tokens, and a header for each measurement of the service: the times that generating the
  -- two tokens took, claims, serialisation and encoding included, and their sum, and the share of
  -- the CPU and the memory; X-Sign-Time-Ms has the whole time of the access token.
  pub sign_in-measured :
      (req : SignInRequest) (db : Db) (pair : TokenPair)
      → Session.sign_in util g b at req.email req.password req.algorithm db ≡ ok pair
      → Accounts.sign_in account_client (ok req) db
        ≡ ok (
          record { status = 200; message = "sign in successful"; body = auth_reply pair },
          measured,
        )
  unfolding Accounts.sign_in Metering.sign_in answer_with_trailers token_reply or_translate bind
      account_client
  sign_in-measured req db pair e = rw (e, forwarded) refl

  -- The same for the rotation of tokens.
  refresh_token-measured :
      (req : RefreshTokenRequest) (db : Db) (pair : TokenPair)
      → Session.refresh_token util g u algorithm_of now at req.user_id req.refresh_token db
        ≡ ok pair
      → Accounts.refresh_token account_client (ok req) db
        ≡ ok (
          record { status = 200; message = "refresh token successful"; body = auth_reply pair },
          measured,
        )
  unfolding Accounts.refresh_token Metering.refresh_token answer_with_trailers token_reply
      or_translate bind account_client
  refresh_token-measured req db pair e = rw (e, forwarded) refl
