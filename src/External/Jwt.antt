-- ===== src/External/Jwt.antt =====
-- backend/pkg/jwt, a copy of golang-jwt: what the program calls of it, as a parameter. A token is
-- seen through what the program reads of it; keys are values of any type, `none` for nil.
use tasktify.Prelude.{ℕ, String, Option, some, List, Bool, true, ◌≡◌, ◌≢◌, Result, ok, In, All}
use tasktify.Prelude.Int.{ℤ, ltb_ℤ, leb_ℤ}

abbrev pub Bytes : Type 0
Bytes = List ℕ

-- A value of a decoded header: a text, or any other JSON value.
pub data HeaderValue : Type 0 where
  text : String → HeaderValue
  other : HeaderValue

abbrev pub Header : Type 0
Header = List (String × HeaderValue)

-- jwt.SigningMethod: Alg and Sign. `none` stands for a nil key.
pub record SigningMethod (Key : Type 0) : Type 0 where
  pub alg : String
  pub sign : String → Option Key → Result Bytes

-- jwt.RegisteredClaims, dates in seconds; `none` is an absent date.
pub record RegisteredClaims : Type 0 where
  pub id : String
  pub subject : String
  pub issuer : String
  pub audience : List String
  pub issued_at : Option ℤ
  pub expires_at : Option ℤ

-- jwt.Token: the name of its method, its header, its claims and the flag Valid.
pub record Token (Claims : Type 0) : Type 0 where
  pub alg : String
  pub header : Header
  pub claims : Claims
  pub valid : Bool

pub data ParserOption : Type 0 where
  with_valid_methods : List String → ParserOption
  with_issuer : String → ParserOption
  with_issued_at : ParserOption
  with_audience : String → ParserOption

pub record JwtLib (Key Claims : Type 0) : Type 0 where
  -- NewParser(opts...).ParseWithClaims(token, &claims, keyfunc) at a time in seconds
  pub parse :
      ℤ → List ParserOption → (Token Claims → Result (Option Key)) → String → Result (Token Claims)
  -- Token.SignedString with the method, the header and the claims of the token
  pub signed_string : SigningMethod Key → Header → Claims → Option Key → Result String
  -- NewParser().ParseUnverified: the name of the token's method, `none` where it is nil
  pub unverified_alg : String → Result (Option String)

-- What an option demands of a token.
abbrev pub Admits : ℤ → String → RegisteredClaims → ParserOption → Type 0
Admits now alg c (with_valid_methods algs) = In alg algs
Admits now alg c (with_issuer issuer) = issuer ≢ "" → c.issuer ≡ issuer
Admits now alg c with_issued_at = (t : ℤ) → c.issued_at ≡ some t → leb_ℤ t now ≡ true
Admits now alg c (with_audience audience) = audience ≢ "" → In audience c.audience

-- What the library documents. `Verifies alg s key`: the signature of the compact token `s` is
-- valid for the method of that name and the key. `Pairs m sk vk`: what `m` signs with `sk` is
-- valid for the registered method of `m`'s name and `vk`.
pub record IsJwtLib {Key Claims : Type 0} (lib : JwtLib Key Claims)
    (registered : Claims → RegisteredClaims) (validate : Claims → Result (Unit {0}))
    (Verifies : String → String → Option Key → Type 0)
    (Pairs : SigningMethod Key → Option Key → Option Key → Type 0) : Type 0 where
  pub parse_admits :
      (now : ℤ) (opts : List ParserOption) (kf : Token Claims → Result (Option Key)) (s : String)
      (t : Token Claims)
      → lib.parse now opts kf s ≡ ok t
      → All (Admits now t.alg (registered t.claims)) opts
  pub parse_unexpired :
      (now : ℤ) (opts : List ParserOption) (kf : Token Claims → Result (Option Key)) (s : String)
      (t : Token Claims) (expiry : ℤ)
      → lib.parse now opts kf s ≡ ok t
      → (registered t.claims).expires_at ≡ some expiry
      → ltb_ℤ now expiry ≡ true
  pub parse_validates :
      (now : ℤ) (opts : List ParserOption) (kf : Token Claims → Result (Option Key)) (s : String)
      (t : Token Claims)
      → lib.parse now opts kf s ≡ ok t
      → (validate t.claims ≡ ok tt) × (t.valid ≡ true)
  -- The key function is given the token before it is valid.
  pub parse_key :
      (now : ℤ) (opts : List ParserOption) (kf : Token Claims → Result (Option Key)) (s : String)
      (t : Token Claims)
      → lib.parse now opts kf s ≡ ok t
      → (t₀ : Token Claims) × (key : Option Key) × (t₀.alg ≡ t.alg)
        × (kf t₀ ≡ ok key)
        × Verifies t.alg s key
  -- A signed token that the options admit is accepted, and gives back its header and its claims.
  pub parse_signed :
      (now : ℤ) (opts : List ParserOption) (kf : Token Claims → Result (Option Key))
      (m : SigningMethod Key) (h : Header) (c : Claims) (sk vk : Option Key) (s : String)
      → lib.signed_string m h c sk ≡ ok s
      → ((t : Token Claims) → t.alg ≡ m.alg → kf t ≡ ok vk)
      → Pairs m sk vk
      → All (Admits now m.alg (registered c)) opts
      → ((expiry : ℤ) → (registered c).expires_at ≡ some expiry → ltb_ℤ now expiry ≡ true)
      → validate c ≡ ok tt
      → lib.parse now opts kf s ≡ ok (record { alg = m.alg; header = h; claims = c; valid = true })
