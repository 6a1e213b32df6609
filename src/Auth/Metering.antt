-- ===== src/Auth/Metering.antt =====
-- What backend/auth-service measures beside its tokens: the timings and runtime statistics of
-- internal/service/auth_service.go, and the trailers with them of
-- internal/delivery/grpc/server/auth_server.go. What the clock and the runtime tell is given;
-- float64 is any type with Go's operations, and the spans between two readings of the clock are in
-- int64.
use tasktify.Prelude.{
  ℕ, String, Option, none, some, Bool, [], ◌∷◌, Result, ok, err, panic, if◌then◌else◌, ◌&&◌,
}
use tasktify.Prelude.Int.{ℤ, pos, ◌-ℤ◌}
use tasktify.External.Uuid.{UuidLib}
use tasktify.External.Gorm.{Gorm}
use tasktify.External.Bcrypt.{BcryptLib}
use tasktify.Jwt.Claims.{Moment}
use tasktify.Jwt.Util.{JwtUtil}
use tasktify.Todo.Server.{Metadata}
use tasktify.Auth.Entity.{User}
use tasktify.Auth.Session
use tasktify.Auth.Session.{TokenPair, Moments}
use tasktify.Auth.Server.{AuthReply, auth_reply}

-- The operations of float64; `seconds` is Duration.Seconds of nanoseconds, `shown` is `%.3f`.
pub record MeterFloats (F : Type 0) : Type 0 where
  pub zero_f : F
  pub add : F → F → F
  pub sub : F → F → F
  pub mul : F → F → F
  pub div : F → F → F
  pub of_int : ℤ → F
  pub seconds : ℤ → F
  pub less : F → F → Bool
  pub less_or_equal : F → F → Bool
  pub shown : F → String

pub record RuntimeStats (F : Type 0) : Type 0 where
  pub memory_alloc_kb : F
  pub memory_sys_kb : F
  pub cpu_pct : F

pub record TokenGenerationTimings (F : Type 0) : Type 0 where
  pub access_token_ms : F
  pub refresh_token_ms : F
  pub total_ms : F

-- runtimeStatsState; no lastWall is the zero time.
pub record RuntimeStatsState (F : Type 0) : Type 0 where
  pub last_wall : Option ℤ
  pub last_cpu : F

-- What collectRuntimeStats reads: MemStats, the clock, the seconds of the CPU and GOMAXPROCS.
pub record Reading (F : Type 0) : Type 0 where
  pub alloc : ℕ
  pub sys : ℕ
  pub now : ℤ
  pub cpu_seconds : F
  pub max_procs : ℕ

-- What the clock tells at the two calls of time.Now in signTokenPair and the two of time.Since.
pub record Instants : Type 0 where
  pub access_start : ℤ
  pub access_end : ℤ
  pub refresh_start : ℤ
  pub refresh_end : ℤ

module _ {F : Type 0} (f : MeterFloats F) where
  unfoldable pub duration_to_ms : ℤ → F
  duration_to_ms d = f.div (f.of_int d) (f.of_int (pos 1_000_000))

  unfoldable pub bytes_to_kb : ℕ → F
  bytes_to_kb v = f.div (f.of_int (pos v)) (f.of_int (pos 1024))

  unfoldable pub timings_of : Instants → TokenGenerationTimings F
  unfolding duration_to_ms ◌-ℤ◌
  timings_of i =
      let access = duration_to_ms (i.access_end -ℤ i.access_start) in
      let refresh = duration_to_ms (i.refresh_end -ℤ i.refresh_start) in
      record {
        access_token_ms = access;
        refresh_token_ms = refresh;
        total_ms = f.add access refresh;
      }

  -- The share of the CPU since the last reading, and 0 where there is none.
  unfoldable pub cpu_since : Reading F → F → Option ℤ → F
  unfolding ◌-ℤ◌
  cpu_since r last_cpu none = f.zero_f
  cpu_since r last_cpu (some last_wall) =
      let wall_seconds = f.seconds (r.now -ℤ last_wall) in
      let cpu_delta = f.sub r.cpu_seconds last_cpu in
      if f.less f.zero_f wall_seconds && f.less_or_equal f.zero_f cpu_delta
      then f.mul (f.div (f.div cpu_delta wall_seconds) (f.of_int (pos r.max_procs)))
          (f.of_int (pos 100))
      else f.zero_f

  unfoldable pub collect_runtime_stats :
      Reading F → RuntimeStatsState F → RuntimeStats F × RuntimeStatsState F
  unfolding bytes_to_kb cpu_since
  collect_runtime_stats r state = (
    record {
      memory_alloc_kb = bytes_to_kb r.alloc;
      memory_sys_kb = bytes_to_kb r.sys;
      cpu_pct = cpu_since r state.last_cpu state.last_wall;
    },
    record { last_wall = some r.now; last_cpu = r.cpu_seconds },
  )

  unfoldable pub set_auth_trailers : TokenGenerationTimings F → RuntimeStats F → Metadata
  set_auth_trailers timings stats =
      ("x-sign-time-ms", f.shown timings.access_token_ms ∷ [])
      ∷ ("x-access-token-generation-time-ms", f.shown timings.access_token_ms ∷ [])
      ∷ ("x-refresh-token-generation-time-ms", f.shown timings.refresh_token_ms ∷ [])
      ∷ ("x-token-generation-time-ms", f.shown timings.total_ms ∷ [])
      ∷ ("x-auth-cpu-pct", f.shown stats.cpu_pct ∷ [])
      ∷ ("x-auth-mem-alloc-kb", f.shown stats.memory_alloc_kb ∷ [])
      ∷ ("x-auth-mem-sys-kb", f.shown stats.memory_sys_kb ∷ [])
      ∷ []

  -- The answer of AuthServer to a result of its service: with tokens the statistics are collected
  -- and the trailers are set, and an error is answered without.
  unfoldable pub answer_with_trailers :
      Instants
      → Reading F
      → Result TokenPair
      → RuntimeStatsState F
      → (Result AuthReply × Metadata) × RuntimeStatsState F
  unfolding timings_of collect_runtime_stats set_auth_trailers auth_reply
  answer_with_trailers i r (ok pair) state =
      let (stats, state') = collect_runtime_stats r state in
      ((ok (auth_reply pair), set_auth_trailers (timings_of i) stats), state')
  answer_with_trailers i r (err e) state = ((err e, []), state)
  answer_with_trailers i r panic state = ((panic, []), state)

  module _ (util : JwtUtil) {Db : Type 0} (g : Gorm Db User) (i : Instants) (r : Reading F) where
    -- SignIn of AuthServer
    unfoldable pub sign_in :
        BcryptLib
        → Moments
        → String
        → String
        → String
        → Db
        → RuntimeStatsState F
        → (Result AuthReply × Metadata) × RuntimeStatsState F
    unfolding answer_with_trailers
    sign_in b at email password algorithm db state =
        answer_with_trailers i r (Session.sign_in util g b at email password algorithm db) state

    -- RefreshToken of AuthServer
    unfoldable pub refresh_token :
        UuidLib
        → (String → Result String)
        → Moment
        → Moments
        → String
        → String
        → Db
        → RuntimeStatsState F
        → (Result AuthReply × Metadata) × RuntimeStatsState F
    unfolding answer_with_trailers
    refresh_token u algorithm_of now at user_id token db state =
        answer_with_trailers i r
          (Session.refresh_token util g u algorithm_of now at user_id token db) state
