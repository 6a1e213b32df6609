-- ===== src/Examples/Trailers.antt =====
-- The theorem on the headers of a sign-in, with whole numbers for float64.
use tasktify.Prelude.{◌≡◌, refl, none, ok, if◌then◌else◌}
use tasktify.Prelude.Int.{ℤ, pos, ltb_ℤ, leb_ℤ, ◌+ℤ◌, ◌-ℤ◌, ◌*ℤ◌}
use tasktify.Auth.Server.{auth_reply}
use tasktify.Auth.Metering.{
  MeterFloats, Instants, Reading, RuntimeStatsState, collect_runtime_stats,
}
use tasktify.Gateway.Accounts
use tasktify.Gateway.Accounts.{SignInRequest}
use tasktify.Gateway.Routes.Trailers.{account_client, measured, sign_in-measured}
use tasktify.Examples.Memory.{users}
use tasktify.Examples.Uuids.{uuids}
use tasktify.Examples.Jwt.{issuing, later}
use tasktify.Examples.Auth.{two_tokens, hashes, table, algorithm_of, signed_in}

-- Whole numbers, which are not divided.
abbrev whole : MeterFloats ℤ
whole = record {
  zero_f = pos 0;
  add = λ x y. x +ℤ y;
  sub = λ x y. x -ℤ y;
  mul = λ x y. x *ℤ y;
  div = λ x y. x;
  of_int = λ x. x;
  seconds = λ x. x;
  less = ltb_ℤ;
  less_or_equal = leb_ℤ;
  shown = λ x. if ltb_ℤ (pos 0) x then "1.000" else "0.000";
}

abbrev instants : Instants
instants = record {
  access_start = pos 100;
  access_end = pos 130;
  refresh_start = pos 130;
  refresh_end = pos 150;
}

abbrev reading : Reading ℤ
reading = record { alloc = 2_048; sys = 4_096; now = pos 200; cpu_seconds = pos 7; max_procs = 1 }

abbrev fresh : RuntimeStatsState ℤ
fresh = record { last_wall = none; last_cpu = pos 0 }

-- The first reading tells no share of the CPU, the next one does.
first_reading : (collect_runtime_stats whole reading fresh).0.cpu_pct ≡ pos 0
unfolding collect_runtime_stats
first_reading = refl

next_reading :
    (collect_runtime_stats whole
      (record reading { now = pos 300; cpu_seconds = pos 9 })
      (collect_runtime_stats whole reading fresh).1).0.cpu_pct
    ≡ pos 200
unfolding collect_runtime_stats ◌-ℤ◌ ◌*ℤ◌
next_reading = refl

abbrev request : SignInRequest
request = record { email = "alice@example.org"; password = "secret"; algorithm = "" }

sign_in-measured_example :
    Accounts.sign_in
      (account_client whole two_tokens users hashes uuids algorithm_of later
        (issuing, later)
        instants
        reading
        fresh)
      (ok request)
      table
    ≡ ok (
      record {
        status = 200;
        message = "sign in successful";
        body = auth_reply ("access", "refresh");
      },
      measured whole two_tokens users hashes uuids algorithm_of later
          (issuing, later)
          instants
          reading
          fresh,
    )
sign_in-measured_example =
    sign_in-measured whole two_tokens users hashes uuids algorithm_of later (issuing, later)
      instants reading fresh request table ("access", "refresh") signed_in
