-- ===== src/Examples/Auth.antt =====
-- The theorems on backend/auth-service at a table with one user.
use Prim.Native.String
use Prim.Native.String.{len}
use text.Mathlib.TextPositions.{len-append}
use tasktify.Prelude.{
  In, inl, inr, All, select, ◌≡◌, ◌≢◌, refl, String, List, [], ◌∷◌, Result, ok, err, plain, str_eq,
  if◌then◌else◌, eq_refl, eq_iff, ok-injective, grpc_status, arith, false, ap,
}
use tasktify.Prelude.Int.{pos}
use tasktify.External.Bcrypt.{BcryptLib, IsBcrypt}
use tasktify.Grpc.{unauthenticated}
use tasktify.Jwt.Claims.{JwtClaims, new_claims}
use tasktify.Jwt.Util.{JwtUtil, use_or_access}
use tasktify.Auth.Entity.{User, CreateUserRequest, UpdateUserRequest}
use tasktify.Auth.Repository
use tasktify.Auth.Repository.{by_email, by_id}
use tasktify.Auth.Users
use tasktify.Auth.Users.{new_user, edit_user}
use tasktify.Auth.Users.Passwords.{create-get_by_email, update_password}
use tasktify.Auth.Users.Effects.{without, delete_others}
use tasktify.Auth.Session.{sign_in, refresh_token, sign_token_pair, payload_of, check_user}
use tasktify.Auth.Session.Refresh.{
  sign_in_opaque, IsSignedIn, sign_in_sound, IsRefreshed, refresh_token_sound,
}
use tasktify.Examples.Memory.{users, stamp_user, merge_user, user_table, first_row, memory-IsGorm}
use tasktify.Examples.Uuids.{uuids, parse_mark}
use tasktify.Examples.Jwt.{claims, issuing, later}

abbrev pub hashes : BcryptLib
hashes = record {
  generate = λ password. ok (String.◌++◌ "h" password);
  compare = λ hash password.
      if str_eq hash (String.◌++◌ "h" password) then ok tt else err (plain "mismatch");
}

longer : (s : String) → String.◌++◌ "h" s ≢ ""
longer s e = absurd (ground (arith, len-append "h" s, ap len e))

hashes-IsBcrypt : IsBcrypt hashes
hashes-IsBcrypt = record {
  compare_generate =
      λ password hash e. rw (← ok-injective e, eq_refl (String.◌++◌ "h" password)) refl;
  generate_filled = λ password hash e. rw (← ok-injective e) (longer password);
}

abbrev pub alice : User
alice = record {
  id = 3;
  name = "Alice";
  email = "alice@example.org";
  password = "hsecret";
  created_at = pos 1_700_000_000;
  updated_at = pos 1_700_000_000;
}

abbrev pub table : List User
table = alice ∷ []

-- Claims of an access token for the same user.
abbrev pub access_claims : JwtClaims
access_claims = record claims { token_use = "access" }

-- Two tokens, `refresh` and `access`, whatever else is asked.
abbrev pub two_tokens : JwtUtil
two_tokens = record {
  sign = λ at payload. ok payload.token_use;
  parse = λ at s.
      if str_eq s "refresh"
      then ok claims
      else if str_eq s "access"
      then ok access_claims
      else err (plain "invalid");
}

create_request : CreateUserRequest
create_request = record { name = "Bob"; email = "bob@example.org"; password = "pass" }

created : (Users.create uuids hashes users create_request table).0 ≡ ok tt
unfolding Users.create Repository.create
created = refl

bobs_parsed : uuids.parse "1#" ≡ ok 1
unfolding parse_mark
bobs_parsed = refl

delete_others_example : without 1 (Users.delete uuids hashes users "1#" table).1 ≡ without 1 table
delete_others_example =
    delete_others uuids hashes users (memory-IsGorm stamp_user merge_user) user_table 1 "1#" table
      bobs_parsed

sign_in_opaque_example :
    sign_in two_tokens users hashes (issuing, later) "nobody@example.org" "secret" "" table
    ≡ err (grpc_status unauthenticated "invalid email or password")
unfolding Repository.get_by_email by_email first_row
sign_in_opaque_example =
    sign_in_opaque two_tokens users hashes (issuing, later) "nobody@example.org" "secret" "" table
      tt

pub signed_in :
    sign_in two_tokens users hashes (issuing, later) "alice@example.org" "secret" "" table
    ≡ ok ("access", "refresh")
unfolding sign_in Repository.get_by_email by_email first_row sign_token_pair payload_of
signed_in = refl

sign_in_sound_example :
    IsSignedIn two_tokens users
      (memory-IsGorm stamp_user merge_user)
      hashes
      (issuing, later)
      "alice@example.org"
      "secret"
      ""
      table
      ("access", "refresh")
sign_in_sound_example =
    sign_in_sound two_tokens users (memory-IsGorm stamp_user merge_user) hashes (issuing, later)
      "alice@example.org" "secret" "" table ("access", "refresh") signed_in

abbrev pub algorithm_of : String → Result String
algorithm_of token = ok "ES256"

refreshed :
    refresh_token two_tokens users uuids algorithm_of later (issuing, later) "111#" "refresh" table
    ≡ ok ("access", "refresh")
unfolding refresh_token Repository.get_by_id by_id first_row sign_token_pair payload_of check_user
    parse_mark new_claims use_or_access
refreshed = refl

refresh_token_sound_example :
    IsRefreshed two_tokens users
      (memory-IsGorm stamp_user merge_user)
      uuids
      algorithm_of
      later
      (issuing, later)
      "111#"
      "refresh"
      table
      ("access", "refresh")
refresh_token_sound_example =
    refresh_token_sound two_tokens users (memory-IsGorm stamp_user merge_user) uuids algorithm_of
      later (issuing, later) "111#" "refresh" table ("access", "refresh") refreshed

differ : (s t : String) → str_eq s t ≡ false → s ≢ t
differ s t e f = absurd (ground (arith, eq_iff s t))

free : (x : User) → In x table → x.email ≢ create_request.email
unfolding create_request
free x (inl here) = rw here (differ "alice@example.org" "bob@example.org" refl)
free x (inr rest) = elim rest [ ]

abbrev bob : User
bob = record {
  id = 2;
  name = "Bob";
  email = "bob@example.org";
  password = "hpass";
  created_at = pos 1_700_000_000;
  updated_at = pos 1_700_000_000;
}

bob_found :
    Repository.get_by_email users
      (Users.create uuids hashes users create_request table).1
      create_request.email
    ≡ ok bob
unfolding create_request Users.create Repository.create Repository.get_by_email by_email first_row
    new_user
bob_found = refl

create-get_by_email_example :
    (bob.name ≡ create_request.name) × (hashes.compare bob.password create_request.password ≡ ok tt)
create-get_by_email_example =
    create-get_by_email uuids hashes users (memory-IsGorm stamp_user merge_user) user_table
      create_request table bob hashes-IsBcrypt free created bob_found

abbrev new_secret : UpdateUserRequest
new_secret = record { id = "111#"; name = "Alice"; email = "alice@example.org"; password = "new" }

alice_parsed : uuids.parse "111#" ≡ ok 3
unfolding parse_mark
alice_parsed = refl

changed : (Users.update uuids hashes users new_secret table).0 ≡ ok tt
unfolding Users.update parse_mark Repository.get_by_id by_id first_row edit_user Repository.update
changed = refl

update_password_example :
    All
      (λ (x : User). hashes.compare x.password "new" ≡ ok tt)
      (select (by_id 3) (Users.update uuids hashes users new_secret table).1)
update_password_example =
    update_password uuids hashes users (memory-IsGorm stamp_user merge_user) user_table new_secret 3
      table hashes-IsBcrypt (differ "new" "" refl) alice_parsed changed
