-- ===== src/Examples/Rotation.antt =====
-- The theorem on the rotation of tokens, with the one token of the examples.
use tasktify.Prelude.{◌≡◌, refl, ok, or_error, grpc_status, arith, inr}
use tasktify.Prelude.Int.{div_floor}
use tasktify.Grpc.{internal}
use tasktify.Jwt.Multi.{multi_util}
use tasktify.Auth.Repository
use tasktify.Auth.Repository.{by_id}
use tasktify.Auth.Session.{payload_of, refresh_token, sign_token_pair}
use tasktify.Auth.Session.Rotation.{sign-refresh_token}
use tasktify.Examples.Memory.{users, first_row}
use tasktify.Examples.Uuids.{uuids, parse_mark, rendered}
use tasktify.Examples.Tokens.{one_token-IsJwtLib}
use tasktify.Examples.Jwt.{
  util, lib, header, claims, issuing, later, keys, signed, unexpired, filled,
}
use tasktify.Examples.Auth.{alice, table, algorithm_of}

stored : Repository.get_by_id users table 3 ≡ ok alice
unfolding Repository.get_by_id by_id first_row
stored = refl

named : uuids.parse "111#" ≡ ok 3
unfolding parse_mark
named = refl

sign-refresh_token_example :
    refresh_token
      (multi_util lib uuids util)
      users
      uuids
      algorithm_of
      later
      (later, later)
      "111#"
      "token"
      table
    ≡ or_error
        (grpc_status internal "failed to generate token")
        (sign_token_pair (multi_util lib uuids util) (later, later) alice "ES256")
unfolding payload_of div_floor
sign-refresh_token_example =
    sign-refresh_token lib uuids (one_token-IsJwtLib header claims) util users issuing later
      (later, later) alice alice "" "111#" "token" "ES256" algorithm_of table keys
      (λ e. absurd (ground arith)) (filled alice.email refl) (rendered 3) signed refl unexpired
      (filled "token" refl) (ground arith) (inr named) stored refl
