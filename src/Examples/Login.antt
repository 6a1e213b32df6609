-- ===== src/Examples/Login.antt =====
-- The theorem on who signs in, with one stored user and a directory in which every key is there.
use tasktify.Prelude.{
  str_eq, eq_iff, ℕ, ◌≡◌, ◌≢◌, refl, ap, subst, String, some, some-injective, true, ok, In, arith,
  inl, inr,
}
use tasktify.Prelude.Int.{ℤ, div_floor, ltb_ℤ, wrap64, ◌+ℤ◌, ◌*ℤ◌}
use tasktify.External.Jwt.{JwtLib}
use tasktify.Jwt.Claims.{JwtClaims, JwtPayload, new_claims}
use tasktify.Jwt.Util.{token_header, use_or_access, sign_with}
use tasktify.Jwt.Multi.{sign, sign_found, sign_config, config_for_sign_alg, multi_util}
use tasktify.Jwt.Issued.{IsCurrent, issued_claims}
use tasktify.Auth.Entity.{User}
use tasktify.Auth.Repository
use tasktify.Auth.Repository.{by_email}
use tasktify.Auth.Session.{payload_of, sign_token_pair, sign_in}
use tasktify.Bootstrap.Login.{IsPresentable, IsLoggedIn, sign_in-handle}
use tasktify.Examples.Memory.{users, stamp_user, merge_user, first_row, memory-IsGorm}
use tasktify.Examples.Uuids.{uuids, rendered}
use tasktify.Examples.Catalog.{
  Catalog, no_tokens, with_token, new_token, old_token, cataloged, cataloged-IsJwtLib, signed_known,
}
use tasktify.Examples.Jwt.{issuing, later, filled}
use tasktify.Examples.Auth.{alice, table, hashes}
use tasktify.Examples.Loader.{named}
use tasktify.Examples.Bootstrap.{
  sevens, sevens-HasNames, every_file, settings, signing, verifying, benchmarking, auth_started,
  gateway_started, tight, pairs,
}

abbrev payload : String → JwtPayload
payload token_use = record {
  user_id = 3;
  email = "alice@example.org";
  algorithm = "";
  token_use = token_use;
}

abbrev claims : String → JwtClaims
claims token_use = issued_claims uuids signing issuing (payload token_use)

abbrev access_only : Catalog
access_only = with_token "access" (token_header "ES256" "access") (claims "access") no_tokens refl

abbrev both_tokens : Catalog
both_tokens =
    with_token "refresh" (token_header "ES256" "refresh") (claims "refresh") access_only refl

abbrev lib : JwtLib ℕ JwtClaims
lib = cataloged both_tokens

refresh_signed : sign lib uuids signing issuing (payload "refresh") ≡ ok "refresh"
unfolding sign config_for_sign_alg sign_found sign_config sign_with use_or_access
refresh_signed =
    signed_known both_tokens (named "ES256") (token_header "ES256" "refresh") (claims "refresh")
      (some 3) "refresh" refl
      (new_token "refresh" (token_header "ES256" "refresh") (claims "refresh") access_only refl)

differ : claims "access" ≢ claims "refresh"
unfolding new_claims use_or_access
differ e =
    let same : "access" ≡ "refresh" = ap (λ (c : JwtClaims). c.token_use) e in
    let told : str_eq "access" "refresh" ≡ true = (eq_iff "access" "refresh").1 same in
    absurd (cc told)

access_signed : sign lib uuids signing issuing (payload "access") ≡ ok "access"
unfolding sign config_for_sign_alg sign_found sign_config sign_with use_or_access
access_signed =
    signed_known both_tokens (named "ES256") (token_header "ES256" "access") (claims "access")
      (some 3) "access" refl
      (old_token "refresh" (token_header "ES256" "refresh") (claims "refresh") access_only refl
        (token_header "ES256" "access") (claims "access") "access" differ
        (new_token "access" (token_header "ES256" "access") (claims "access") no_tokens refl))

signed_in :
    sign_in
      (multi_util lib uuids signing)
      users
      hashes
      (issuing, issuing)
      "alice@example.org"
      "secret"
      ""
      table
    ≡ ok ("access", "refresh")
unfolding sign_in Repository.get_by_email by_email first_row sign_token_pair payload_of multi_util
signed_in = rw (access_signed, refresh_signed) refl

presentable : (user : User) → In user table → IsPresentable uuids user
presentable user (inl here) = rw here (record {
  has_id = λ e. absurd (ground arith);
  has_email = filled alice.email refl;
  rendered = rendered 3;
})
presentable user (inr n) = elim n [ ]

current :
    (user : User)
    → IsCurrent uuids signing (payload_of user "" "access") issuing later
      × IsCurrent uuids signing (payload_of user "" "refresh") issuing later
unfolding new_claims div_floor wrap64 ◌+ℤ◌ ◌*ℤ◌ payload_of
current user = (
  record {
    issued = refl;
    unexpired = λ expiry e.
        subst (λ (x : ℤ). ltb_ℤ (div_floor later.now 1_000_000_000) x ≡ true)
          (some-injective _ expiry e) refl;
  },
  record {
    issued = refl;
    unexpired = λ expiry e.
        subst (λ (x : ℤ). ltb_ℤ (div_floor later.now 1_000_000_000) x ≡ true)
          (some-injective _ expiry e) refl;
  },
)

sign_in-handle_example :
    IsLoggedIn lib uuids verifying hashes
      (λ rows. rows)
      later
      "alice@example.org"
      "secret"
      table
      ("access", "refresh")
sign_in-handle_example =
    sign_in-handle sevens every_file settings sevens-HasNames lib uuids
      (cataloged-IsJwtLib both_tokens) users (memory-IsGorm stamp_user merge_user) hashes signing
      verifying benchmarking (issuing, issuing) later "alice@example.org" "secret" "" table
      ("access", "refresh") tight auth_started gateway_started pairs presentable current
      (ground arith, ground arith) signed_in
