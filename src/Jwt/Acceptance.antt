-- ===== src/Jwt/Acceptance.antt =====
-- What Parse of backend/pkg/utils/jwtutils/jwt.go accepts.
use Prim.Native.String.{len}
use tasktify.Prelude.{
  ◌⊎◌, none, refl, String, Option, some, List, Result, ok, str_eq, subst, ◌≡◌, ◌≢◌, inl, inr, arith,
  eq_iff, All, In, Bool-cases, ◌≤◌, ltb, true, Ensures, Ensures-bind,
}
use tasktify.Prelude.Int.{ℤ, div_floor, ltb_ℤ}
use tasktify.External.Uuid.{UuidLib}
use tasktify.External.Jwt.{Token, SigningMethod, JwtLib, IsJwtLib, Admits}
use tasktify.Jwt.Claims.{JwtClaims, Moment, validate, parser_options, max_jwt_compact_bytes}
use tasktify.Jwt.Util.{accept}
use tasktify.Jwt.Multi.{MultiUtil, key_for, parse, allowed_header_algs}
use tasktify.Jwt.Checks.{IsWellFormed, validate_iff, IsPlain, accept_iff}
use tasktify.Jwt.Keys.{IsKeyOf, key_for_sound}

-- A time before the expiry date, if there is one.
abbrev pub IsBefore : ℤ → Option ℤ → Type 0
IsBefore now none = Unit {0}
IsBefore now (some expiry) = ltb_ℤ now expiry ≡ true

all-IsBefore :
    (now : ℤ) (date : Option ℤ)
    → ((expiry : ℤ) → date ≡ some expiry → ltb_ℤ now expiry ≡ true)
    → IsBefore now date
all-IsBefore now none h = tt
all-IsBefore now (some expiry) h = h expiry refl

-- What holds unless a text is empty.
or_empty : {P : Type 0} (s : String) → (s ≢ "" → P) → (s ≡ "") ⊎ P
or_empty s h = elim (Bool-cases (str_eq s "")) [
  | inl blank ↦ inl ((eq_iff s "").0 blank)
  | inr filled ↦ inr (h (λ e. absurd (ground (arith, eq_iff s ""))))
]

module _ {Key : Type 0} (lib : JwtLib Key JwtClaims) (u : UuidLib)
    {Verifies : String → String → Option Key → Type 0}
    {Pairs : SigningMethod Key → Option Key → Option Key → Type 0}
    (jwt : IsJwtLib lib (λ c. c.registered) (validate u) Verifies Pairs) (m : MultiUtil Key) where
  -- What the library makes of the compact token `s`, with the options and the keys of `m`.
  abbrev pub read : Moment → String → Result (Token JwtClaims)
  read at s =
      lib.parse (div_floor at.now 1_000_000_000)
        (parser_options m.issuer m.audience (allowed_header_algs m.configs))
        (λ t. key_for m.configs t.alg) s

  -- What is known of claims that Parse hands out for the compact token `s`: they are those of the
  -- token that the library reads.
  pub record IsAccepted (at : Moment) (s : String) (c : JwtClaims) : Type 0 where
    pub token : Token JwtClaims
    pub is_read : read at s ≡ ok token
    pub is_valid : token.valid ≡ true
    pub its_claims : token.claims ≡ c
    pub key : Option Key
    pub size : len s ≤ max_jwt_compact_bytes
    pub keyed : IsKeyOf m.configs token.alg key
    pub signed : Verifies token.alg s key
    pub plain_header : IsPlain token.header c.token_use
    pub well_formed : IsWellFormed u c
    pub from_issuer : (m.issuer ≡ "") ⊎ (c.registered.issuer ≡ m.issuer)
    pub to_audience : (m.audience ≡ "") ⊎ In m.audience c.registered.audience
    pub unexpired : IsBefore (div_floor at.now 1_000_000_000) c.registered.expires_at

  options-issuer :
      (now : ℤ) (alg : String) (c : JwtClaims) (issuer audience : String) (algs : List String)
      → All (Admits now alg c.registered) (parser_options issuer audience algs)
      → (issuer ≢ "" → c.registered.issuer ≡ issuer)
        × (audience ≢ "" → In audience c.registered.audience)
  unfolding parser_options
  options-issuer now alg c issuer audience algs a = elim (Bool-cases (str_eq audience "")) [
    | inl blank ↦
        let demands = rw (blank, parser_options) at a in
        (demands.1.0, λ filled. absurd (filled ((eq_iff audience "").0 blank)))
    | inr filled ↦ let demands = rw (filled, parser_options) at a in (demands.1.0, demands.1.1.1.0)
  ]

  accepted :
      (at : Moment) (s : String) (t : Token JwtClaims) (c : JwtClaims)
      → read at s ≡ ok t
      → accept t ≡ ok c
      → len s ≤ max_jwt_compact_bytes
      → IsAccepted at s c
  accepted at s t c p e size =
      let (valid, plain_header, same) = (accept_iff t c).0 e in
      let (validated, _) = jwt.parse_validates _ _ _ _ _ p in
      let (t₀, key, alg≡, found, signed) = jwt.parse_key _ _ _ _ _ p in
      let (from, to) =
        options-issuer _ t.alg t.claims m.issuer m.audience _ (jwt.parse_admits _ _ _ _ _ p) in
      subst (IsAccepted at s) same (record {
        token = t;
        is_read = p;
        is_valid = valid;
        its_claims = refl;
        key = key;
        size = size;
        keyed = key_for_sound m.configs t.alg key (rw alg≡ at found);
        signed = signed;
        plain_header = plain_header;
        well_formed = (validate_iff u t.claims).0 validated;
        from_issuer = or_empty m.issuer from;
        to_audience = or_empty m.audience to;
        unexpired =
            all-IsBefore (div_floor at.now 1_000_000_000) _
              (λ expiry. jwt.parse_unexpired _ _ _ _ _ expiry p);
      })

  -- With golang-jwt as documented: claims that Parse hands out are those of the token that the
  -- library reads from a text of at most 64 KiB. That token is valid, its signature is valid under
  -- the key of a configuration with the token's algorithm, its header is plain and of the type of
  -- the claims' use, and the claims are well formed, before their expiry date if they have one,
  -- and, where these are configured, from the issuer and to the audience.
  pub parse_sound :
      (at : Moment) (s : String) (c : JwtClaims) → parse lib u m at s ≡ ok c → IsAccepted at s c
  unfolding parse
  parse_sound at s c e = elim (Bool-cases (ltb max_jwt_compact_bytes (len s))) [
    | inl long ↦ absurd (cc (rw (long, parse) at e))
    | inr short ↦
        let parsed : Ensures (IsAccepted at s) _ =
          Ensures-bind (read at s) accept
            λ t p. record { at = λ c' e'. accepted at s t c' p e' (ground arith) } in
        parsed.at c (rw (short, parse) at e)
  ]
