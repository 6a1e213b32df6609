-- ===== src/Times.antt =====
-- Go's time.Time as seconds and nanoseconds since 1970, and timestamppb.Timestamp
-- (google.golang.org/protobuf), whose seconds and nanoseconds a client may set to anything.
use tasktify.Prelude.{ℕ, ◌*◌, ◌/◌, ◌≡◌, arith}
use tasktify.Prelude.Int.{ℤ, pos, negsuc, ◌+ℤ◌, ◌*ℤ◌, wrap64, div_floor, mod_floor, IsInt64}

pub record Time : Type 0 where
  pub sec : ℤ
  pub nsec : ℕ

pub record Timestamp : Type 0 where
  pub seconds : ℤ
  pub nanos : ℤ

-- time.Unix: nanoseconds outside [0, 1e9) are carried into the seconds.
unfoldable pub unix : ℤ → ℤ → Time
unix sec nsec = record {
  sec = wrap64 (sec +ℤ div_floor nsec 1_000_000_000);
  nsec = mod_floor nsec 1_000_000_000;
}

-- time.UnixMilli
unfoldable pub of_unix_milli : ℤ → Time
unfolding div_floor mod_floor
of_unix_milli ms = record { sec = div_floor ms 1000; nsec = mod_floor ms 1000 * 1_000_000 }

-- Time.UnixMilli
unfoldable pub unix_milli : Time → ℤ
unix_milli t = wrap64 (t.sec *ℤ pos 1000 +ℤ pos (t.nsec / 1_000_000))

-- timestamppb.New and Timestamp.AsTime
unfoldable pub timestamp : Time → Timestamp
timestamp t = record { seconds = t.sec; nanos = pos t.nsec }

unfoldable pub as_time : Timestamp → Time
unfolding unix
as_time ts = unix ts.seconds ts.nanos

-- Milliseconds in the range of int64 survive the way through a Timestamp.
pub unix_milli-of_unix_milli :
    (ms : ℤ) → IsInt64 ms → unix_milli (as_time (timestamp (of_unix_milli ms))) ≡ ms
unfolding unix_milli as_time timestamp of_unix_milli wrap64 ◌+ℤ◌ ◌*ℤ◌ div_floor mod_floor
unix_milli-of_unix_milli (pos n) h = ground arith
unix_milli-of_unix_milli (negsuc n) h = ground arith
