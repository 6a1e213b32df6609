-- ===== src/Jwt/Issuance.antt =====
-- What Sign of backend/pkg/utils/jwtutils/jwt.go issues, Parse of the same utility accepts.
use Prim.Native.String.{len}
use tasktify.Prelude.{String, Option, some, [], ok, ◌≡◌, refl, ◌≤◌, true, In}
use tasktify.Prelude.Int.{ℤ, div_floor, ltb_ℤ, leb_ℤ}
use tasktify.External.Uuid.{UuidLib}
use tasktify.External.Jwt.{SigningMethod, JwtLib, IsJwtLib}
use tasktify.Jwt.Claims.{JwtClaims, JwtPayload, Moment, validate, max_jwt_compact_bytes}
use tasktify.Jwt.Multi.{AlgConfig, MultiUtil, parse, sign, allowed_header_algs}
use tasktify.Jwt.Allowed.{allowed_from-has}
use tasktify.Jwt.KeyOrder.{IsUsable, IsUniform, key_for-own}
use tasktify.Jwt.Issued.{IsIssuable, issued_claims, sign-Issued, parse-Issued}

module _ {Key : Type 0} (lib : JwtLib Key JwtClaims) (u : UuidLib)
    {Verifies : String → String → Option Key → Type 0}
    {Pairs : SigningMethod Key → Option Key → Option Key → Type 0}
    (jwt : IsJwtLib lib (λ c. c.registered) (validate u) Verifies Pairs) (m : MultiUtil Key) where
  -- Every configuration's keys belong together, none is nil, and one algorithm has one key.
  pub record AreKeyPairs : Type 0 where
    pub usable : (entry : String × Option (AlgConfig Key)) → In entry m.configs → IsUsable entry
    pub uniform : IsUniform m.configs
    pub pairs :
        (name : String) (cfg : AlgConfig Key) (method : SigningMethod Key)
        → In (name, some cfg) m.configs
        → cfg.method ≡ some method
        → Pairs method cfg.sign_key cfg.verify_key

  -- With golang-jwt as documented: where every configuration is usable, its two keys belong
  -- together and one algorithm has one key, and the payload names a user with an id that is not
  -- nil, an address and a use that is known or empty, a token that Sign issues is accepted by
  -- Parse of the same utility, at a moment that is not before the one of issuing and before the
  -- expiry, and gives back the claims that were put in; provided that it is at most 64 KiB
  -- long.
  pub sign-parse :
      (at at' : Moment) (payload : JwtPayload) (s : String)
      → AreKeyPairs
      → IsIssuable u payload
      → sign lib u m at payload ≡ ok s
      → leb_ℤ (div_floor at.now 1_000_000_000) (div_floor at'.now 1_000_000_000) ≡ true
      → ((expiry : ℤ)
          → (issued_claims u m at payload).registered.expires_at ≡ some expiry
          → ltb_ℤ (div_floor at'.now 1_000_000_000) expiry ≡ true)
      → len s ≤ max_jwt_compact_bytes
      → parse lib u m at' s ≡ ok (issued_claims u m at payload)
  unfolding allowed_header_algs
  sign-parse at at' payload s keys wf signed issued unexpired size =
      let i = sign-Issued lib u m at payload s signed in
      parse-Issued lib u jwt m m refl refl at at' payload s i.config.verify_key wf i
        (record {
          its_key =
              key_for-own m.configs i.name i.config i.method keys.usable keys.uniform i.configured
                i.has_method;
          allowed =
              allowed_from-has [] m.configs i.name i.config i.method i.configured i.has_method;
        })
        (keys.pairs i.name i.config i.method i.configured i.has_method)
        (record { issued = issued; unexpired = unexpired }) size
