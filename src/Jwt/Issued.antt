-- ===== src/Jwt/Issued.antt =====
-- A token that Sign of backend/pkg/utils/jwtutils/jwt.go has issued, and a Parse that has the key
-- for it.
use Prim.Native.String.{len}
use tasktify.Prelude.{
  String, Option, none, some, List, Result, ok, err, panic, ◌>>=◌, str_eq, if◌then◌else◌, ◌≡◌, ◌≢◌,
  ◌⊎◌, inl, inr, refl, subst, arith, eq_iff, eq_refl, lookup, All, In, Bool-cases, Option-cases,
  ◌≤◌, ltb, true, false, some-injective,
}
use tasktify.Prelude.Int.{ℤ, div_floor, ltb_ℤ, leb_ℤ}
use tasktify.External.Uuid.{UuidLib, nil}
use tasktify.External.Jwt.{Token, SigningMethod, JwtLib, IsJwtLib, Admits}
use tasktify.Jwt.Claims.{
  JwtClaims, JwtPayload, Moment, new_claims, validate, token_use_access, token_use_refresh,
  parser_options, max_jwt_compact_bytes,
}
use tasktify.Jwt.Header.{typ_of}
use tasktify.Jwt.Util.{token_header, use_or_access, sign_with}
use tasktify.Jwt.Multi.{
  AlgConfig, MultiUtil, key_for, parse, sign, sign_found, sign_config, config_for_sign_alg,
  allowed_header_algs,
}
use tasktify.Jwt.Checks.{IsWellFormed, validate_iff, IsPlain, accept_iff}
use tasktify.Jwt.Resolution.{config_for_sign_alg-In}

-- The header that Sign writes is plain, and of the type of the use.
token_header-IsPlain : (alg token_use : String) → IsPlain (token_header alg token_use) token_use
unfolding token_header lookup typ_of
token_header-IsPlain alg token_use = record {
  no_crit = refl;
  no_kid = refl;
  no_keys = (refl, (refl, (refl, (refl, (refl, (refl, tt))))));
  typ = refl;
}

-- The claims of a payload that names a user, an address and a known use, or none, are well formed.
new_claims-IsWellFormed :
    (u : UuidLib) (at : Moment) (issuer audience : String) (duration : ℤ) (payload : JwtPayload)
    → payload.user_id ≢ nil
    → payload.email ≢ ""
    → u.render payload.user_id ≢ ""
    → (payload.token_use ≡ "")
      ⊎ (payload.token_use ≡ token_use_access)
      ⊎ (payload.token_use ≡ token_use_refresh)
    → IsWellFormed u
        (new_claims u at issuer audience duration payload (use_or_access payload.token_use))
unfolding new_claims use_or_access
new_claims-IsWellFormed u at issuer audience duration payload has_user has_email rendered known =
    record {
      has_user = has_user;
      has_email = has_email;
      use_known = ground (arith, eq_iff payload.token_use "", eq_refl "");
      has_subject = rendered;
      subject_is_user = refl;
    }

module _ {Key : Type 0} (lib : JwtLib Key JwtClaims) (u : UuidLib) (m : MultiUtil Key) where
  -- A configuration that Sign may use, with the token that it issues.
  pub record Issued (at : Moment) (payload : JwtPayload) (s : String) : Type 0 where
    pub name : String
    pub config : AlgConfig Key
    pub method : SigningMethod Key
    pub configured : In (name, some config) m.configs
    pub has_method : config.method ≡ some method
    pub signed :
        sign_with lib u method config.sign_key m.issuer m.audience m.duration at payload ≡ ok s

  sign_config-Issued :
      (name : String) (entry : Option (AlgConfig Key)) (at : Moment) (payload : JwtPayload)
      (s : String)
      → In (name, entry) m.configs
      → sign_config lib u m entry at payload ≡ ok s
      → Issued at payload s
  unfolding sign_config
  sign_config-Issued name none at payload s i e = absurd (cc e)
  sign_config-Issued name (some cfg) at payload s i e = elim (Option-cases cfg.method) [
    | inl no_method ↦ absurd (cc (rw (no_method, sign_config) at e))
    | inr (method, has) ↦ record {
      name = name;
      config = cfg;
      method = method;
      configured = i;
      has_method = has;
      signed = rw (has, sign_config) at e;
    }
  ]

  sign_bind :
      (r : Result (Option (Option (AlgConfig Key)))) (at : Moment) (payload : JwtPayload)
      (s : String)
      → (r >>= λ found. sign_found lib u m found at payload) ≡ ok s
      → (cfg : AlgConfig Key) × (r ≡ ok (some (some cfg)))
        × (sign_config lib u m (some cfg) at payload ≡ ok s)
  unfolding sign_found
  sign_bind (ok none) at payload s e = absurd (cc e)
  sign_bind (ok (some none)) at payload s e = absurd (cc e)
  sign_bind (ok (some (some cfg))) at payload s e = (cfg, refl, e)
  sign_bind (err _) at payload s e = absurd (cc e)
  sign_bind panic at payload s e = absurd (cc e)

  pub sign-Issued :
      (at : Moment) (payload : JwtPayload) (s : String)
      → sign lib u m at payload ≡ ok s
      → Issued at payload s
  unfolding sign
  sign-Issued at payload s e =
      let alg = if str_eq payload.algorithm "" then m.default_alg else payload.algorithm in
      let (cfg, found, signed) = sign_bind (config_for_sign_alg m.configs alg) at payload s e in
      let (name, i) = config_for_sign_alg-In m.configs alg cfg found in
      sign_config-Issued name (some cfg) at payload s i signed

dated : (a now t : ℤ) → some a ≡ some t → leb_ℤ a now ≡ true → leb_ℤ t now ≡ true
dated a now t e h = subst (λ (x : ℤ). leb_ℤ x now ≡ true) (some-injective a t e) h

-- The options of Parse admit the claims that Sign builds with the same issuer and audience.
options-Admits :
    (u : UuidLib) (now : ℤ) (alg : String) (algs : List String) (at : Moment)
    (issuer audience : String) (duration : ℤ) (payload : JwtPayload) (token_use : String)
    → In alg algs
    → leb_ℤ (div_floor at.now 1_000_000_000) now ≡ true
    → All
        (Admits now alg (new_claims u at issuer audience duration payload token_use).registered)
        (parser_options issuer audience algs)
unfolding new_claims parser_options
options-Admits u now alg algs at issuer audience duration payload token_use listed issued =
    elim (Bool-cases (str_eq audience "")) [
      | inl blank ↦ rw blank (listed, ((λ _. refl), ((λ t e. dated _ _ t e issued), tt)))
      | inr filled ↦
          rw filled (listed, ((λ _. refl), ((λ t e. dated _ _ t e issued), ((λ _. inl refl), tt))))
    ]

-- The claims that Sign puts into a token for a payload.
abbrev pub issued_claims :
    {Key : Type 0} → UuidLib → MultiUtil Key → Moment → JwtPayload → JwtClaims
issued_claims u m at payload =
    new_claims u at m.issuer m.audience m.duration payload (use_or_access payload.token_use)

-- A payload that a token can be issued for.
pub record IsIssuable (u : UuidLib) (payload : JwtPayload) : Type 0 where
  pub has_user : payload.user_id ≢ nil
  pub has_email : payload.email ≢ ""
  pub rendered : u.render payload.user_id ≢ ""
  pub known_use :
      (payload.token_use ≡ "")
      ⊎ (payload.token_use ≡ token_use_access)
      ⊎ (payload.token_use ≡ token_use_refresh)

-- A token is used at `at'`, in whole seconds not before its issuing, and before it expires.
pub record IsCurrent {Key : Type 0} (u : UuidLib) (m : MultiUtil Key) (payload : JwtPayload)
    (at at' : Moment) : Type 0 where
  pub issued : leb_ℤ (div_floor at.now 1_000_000_000) (div_floor at'.now 1_000_000_000) ≡ true
  pub unexpired :
      (expiry : ℤ)
      → (issued_claims u m at payload).registered.expires_at ≡ some expiry
      → ltb_ℤ (div_floor at'.now 1_000_000_000) expiry ≡ true

-- A utility that verifies what a method signs with a key: it allows the method's algorithm and has
-- the verification key for it.
pub record HasKeyFor {Key : Type 0} (m' : MultiUtil Key) (method : SigningMethod Key)
    (key : Option Key) : Type 0 where
  pub its_key : key_for m'.configs method.alg ≡ ok key
  pub allowed : In method.alg (allowed_header_algs m'.configs)

module _ {Key : Type 0} (lib : JwtLib Key JwtClaims) (u : UuidLib)
    {Verifies : String → String → Option Key → Type 0}
    {Pairs : SigningMethod Key → Option Key → Option Key → Type 0}
    (jwt : IsJwtLib lib (λ c. c.registered) (validate u) Verifies Pairs) (m m' : MultiUtil Key)
    (same_issuer : m'.issuer ≡ m.issuer) (same_audience : m'.audience ≡ m.audience) where
  keyfunc : Token JwtClaims → Result (Option Key)
  keyfunc t = key_for m'.configs t.alg

  parsed :
      (at at' : Moment) (payload : JwtPayload) (s : String) (vk : Option Key)
      → IsIssuable u payload
      → (i : Issued lib u m at payload s) → HasKeyFor m' i.method vk
      → Pairs i.method i.config.sign_key vk
      → IsCurrent u m payload at at'
      → lib.parse
          (div_floor at'.now 1_000_000_000)
          (parser_options m.issuer m.audience (allowed_header_algs m'.configs))
          keyfunc
          s
        ≡ ok (record {
          alg = i.method.alg;
          header = token_header i.method.alg (use_or_access payload.token_use);
          claims = issued_claims u m at payload;
          valid = true;
        })
  unfolding sign_with keyfunc
  parsed at at' payload s vk wf i has pairs current =
      jwt.parse_signed _ _ keyfunc i.method _ _ i.config.sign_key vk s i.signed
        (λ t same. rw same has.its_key) pairs
        (options-Admits u _ i.method.alg _ at m.issuer m.audience m.duration payload _ has.allowed
          current.issued)
        current.unexpired
        ((validate_iff u _).1 (
          new_claims-IsWellFormed u at m.issuer m.audience m.duration payload wf.has_user
            wf.has_email wf.rendered wf.known_use))

  -- What one utility has issued, another accepts that has the key for it.
  pub parse-Issued :
      (at at' : Moment) (payload : JwtPayload) (s : String) (vk : Option Key)
      → IsIssuable u payload
      → (i : Issued lib u m at payload s) → HasKeyFor m' i.method vk
      → Pairs i.method i.config.sign_key vk
      → IsCurrent u m payload at at'
      → len s ≤ max_jwt_compact_bytes
      → parse lib u m' at' s ≡ ok (issued_claims u m at payload)
  unfolding parse keyfunc new_claims use_or_access
  parse-Issued at at' payload s vk wf i has pairs current size =
      let small : ltb max_jwt_compact_bytes (len s) ≡ false = ground arith in
      let token : Token JwtClaims = record {
        alg = i.method.alg;
        header = token_header i.method.alg (use_or_access payload.token_use);
        claims = issued_claims u m at payload;
        valid = true;
      } in
      rw (small, same_issuer, same_audience, parsed at at' payload s vk wf i has pairs current)
        ((accept_iff token (issued_claims u m at payload)).1
          (refl, token_header-IsPlain i.method.alg (use_or_access payload.token_use), refl))
