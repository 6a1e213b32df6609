-- ===== src/Examples/Catalog.antt =====
-- A library of tokens that knows the tokens of a catalogue, all of the method ES256 with the key 7;
-- it stands for backend/pkg/jwt where a theorem needs several tokens.
use tasktify.Prelude.{
  ℕ, ◌≡◌, ◌≢◌, refl, sym, ap, ◌∙◌, inl, inr, String, Option, none, some, List, Bool, true, Result,
  ok, err, plain, if◌then◌else◌, All, Bool-cases, ok-injective, ◌&&◌, eq_iff, eq_refl, str_eq,
  some-injective,
}
use tasktify.Prelude.Int.{ℤ, ltb_ℤ}
use tasktify.External.Jwt.{Header, SigningMethod, Token, ParserOption, JwtLib, IsJwtLib, Admits}
use tasktify.Jwt.Claims.{JwtClaims, validate}
use tasktify.Examples.Uuids.{uuids}
use tasktify.Examples.Equality.{String_discrete, JwtClaims_discrete, Header_discrete}
use tasktify.Examples.Decisions.{
  &&-true, All-Admits_dec, holds, holds-true, holds-proof, is_ok, is_ok-ok, is_seven, is_seven-ok,
  before, before-true, before-proof,
}

-- The contents of a token, found by the token, and the token, found by its contents.
pub record Catalog : Type 0 where
  pub contents : String → Option (Header × JwtClaims)
  pub token_of : Header → JwtClaims → Option String
  pub found :
      (h : Header) (c : JwtClaims) (s : String) → token_of h c ≡ some s → contents s ≡ some (h, c)

pub no_tokens_found :
    (h : Header) (c : JwtClaims) (s : String)
    → ◌≡◌ {A = Option String} none (some s)
    → ◌≡◌ {A = Option (Header × JwtClaims)} none (some (h, c))
no_tokens_found h c s e = absurd (cc e)

abbrev pub no_tokens : Catalog
no_tokens = record { contents = λ s. none; token_of = λ h c. none; found = no_tokens_found }

-- A catalogue with one token more.
module _ (name : String) (header : Header) (claims : JwtClaims) (rest : Catalog)
    (new : rest.contents name ≡ none) where
  abbrev is_new : Header → JwtClaims → Bool
  is_new h c = holds (Header_discrete h header) && holds (JwtClaims_discrete c claims)

  abbrev pub contents_with : String → Option (Header × JwtClaims)
  contents_with s = if str_eq s name then some (header, claims) else rest.contents s

  abbrev pub token_with : Header → JwtClaims → Option String
  token_with h c = if is_new h c then some name else rest.token_of h c

  pub found_with :
      (h : Header) (c : JwtClaims) (s : String)
      → token_with h c ≡ some s
      → contents_with s ≡ some (h, c)
  found_with h c s e = elim (Bool-cases (is_new h c)) [
    | inl is ↦
        let (a, b) = &&-true _ _ is in
        let same : name ≡ s = some-injective name s (rw is at e) in
        rw
          (
            ← same,
            eq_refl name,
            holds-proof (Header_discrete h header) a,
            holds-proof (JwtClaims_discrete c claims) b,
          )
          refl
    | inr isnt ↦
        let old : rest.contents s ≡ some (h, c) = rest.found h c s (rw isnt at e) in
        elim (Bool-cases (str_eq s name)) [
          | inl same ↦ absurd (
              let gone : rest.contents s ≡ none = rw ((eq_iff s name).0 same) new in
              cc (sym gone ∙ old))
          | inr other ↦ rw other old
        ]
  ]

  pub new_token : token_with header claims ≡ some name
  new_token =
      rw
        (
          holds-true (Header_discrete header header) refl,
          holds-true (JwtClaims_discrete claims claims) refl,
        )
        refl

  -- The catalogue without the new token still has its tokens.
  pub old_token :
      (h : Header) (c : JwtClaims) (s : String)
      → c ≢ claims
      → rest.token_of h c ≡ some s
      → token_with h c ≡ some s
  old_token h c s other known = elim (Bool-cases (is_new h c)) [
    | inl is ↦ absurd (other (holds-proof (JwtClaims_discrete c claims) ((&&-true _ _ is).1)))
    | inr isnt ↦ rw isnt known
  ]

  abbrev pub with_token : Catalog
  with_token = record { contents = contents_with; token_of = token_with; found = found_with }

abbrev the_token : Header × JwtClaims → Token JwtClaims
the_token p = record { alg = "ES256"; header = p.0; claims = p.1; valid = true }

module _ (catalog : Catalog) where
  abbrev fits :
      ℤ → List ParserOption → (Token JwtClaims → Result (Option ℕ)) → Header × JwtClaims → Bool
  fits now opts kf p =
      holds (All-Admits_dec now "ES256" p.1.registered opts)
      && (before now p.1.registered.expires_at
          && (is_ok (validate uuids p.1) && is_seven (kf (the_token p))))

  abbrev read_found :
      ℤ
      → List ParserOption
      → (Token JwtClaims → Result (Option ℕ))
      → Option (Header × JwtClaims)
      → Result (Token JwtClaims)
  read_found now opts kf none = err (plain "invalid")
  read_found now opts kf (some p) =
      if fits now opts kf p then ok (the_token p) else err (plain "invalid")

  abbrev named : Option String → Result String
  named none = err (plain "unknown")
  named (some s) = ok s

  unfoldable pub cataloged : JwtLib ℕ JwtClaims
  cataloged = record {
    parse = λ now opts kf s. read_found now opts kf (catalog.contents s);
    signed_string = λ m h c sk.
        if holds (String_discrete m.alg "ES256")
        then named (catalog.token_of h c)
        else err (plain "unknown");
    unverified_alg = λ s. elim (catalog.contents s) [
      | none ↦ err (plain "malformed")
      | some p ↦ ok (some "ES256")
    ];
  }

  -- The signature of each token is valid for the key 7, which the method ES256 signs for.
  abbrev pub Verifies : String → String → Option ℕ → Type 0
  Verifies alg s key = (alg ≡ "ES256") × (key ≡ some 7)

  abbrev pub Pairs : SigningMethod ℕ → Option ℕ → Option ℕ → Type 0
  Pairs m sk vk = vk ≡ some 7

  record Accepted (now : ℤ) (opts : List ParserOption) (kf : Token JwtClaims → Result (Option ℕ))
      (t : Token JwtClaims) : Type 0 where
    p : Header × JwtClaims
    same : the_token p ≡ t
    admitted : All (Admits now "ES256" p.1.registered) opts
    fresh : before now p.1.registered.expires_at ≡ true
    valid : validate uuids p.1 ≡ ok tt
    keyed : kf (the_token p) ≡ ok (some 7)

  read_found-Accepted :
      (now : ℤ) (opts : List ParserOption) (kf : Token JwtClaims → Result (Option ℕ))
      (found : Option (Header × JwtClaims)) (t : Token JwtClaims)
      → read_found now opts kf found ≡ ok t
      → Accepted now opts kf t
  read_found-Accepted now opts kf none t e = absurd (cc e)
  read_found-Accepted now opts kf (some p) t e = elim (Bool-cases (fits now opts kf p)) [
    | inl is ↦
        let (b, e₂) = &&-true _ _ is in
        let (c, e₃) = &&-true _ _ e₂ in
        let (d, k) = &&-true _ _ e₃ in
        record {
          p = p;
          same = ok-injective (rw is at e);
          admitted = holds-proof (All-Admits_dec now "ES256" p.1.registered opts) b;
          fresh = c;
          valid = is_ok-ok (validate uuids p.1) d;
          keyed = is_seven-ok (kf (the_token p)) k;
        }
    | inr isnt ↦ absurd (cc (rw isnt at e))
  ]

  named-some : (found : Option String) (s : String) → named found ≡ ok s → found ≡ some s
  named-some none s e = absurd (cc e)
  named-some (some s') s e = ap some (ok-injective e)

  signed_same :
      (m : SigningMethod ℕ) (h : Header) (c : JwtClaims) (sk : Option ℕ) (s : String)
      → cataloged.signed_string m h c sk ≡ ok s
      → (m.alg ≡ "ES256") × (catalog.contents s ≡ some (h, c))
  unfolding cataloged
  signed_same m h c sk s e = elim (Bool-cases (holds (String_discrete m.alg "ES256"))) [
    | inl is ↦ (
      holds-proof (String_discrete m.alg "ES256") is,
      catalog.found h c s (named-some (catalog.token_of h c) s (rw (is, cataloged) at e)),
    )
    | inr isnt ↦ absurd (cc (rw (isnt, cataloged) at e))
  ]

  -- A token of the catalogue is signed for its contents.
  pub signed_known :
      (m : SigningMethod ℕ) (h : Header) (c : JwtClaims) (sk : Option ℕ) (s : String)
      → m.alg ≡ "ES256"
      → catalog.token_of h c ≡ some s
      → cataloged.signed_string m h c sk ≡ ok s
  unfolding cataloged
  signed_known m h c sk s e found = rw (holds-true (String_discrete m.alg "ES256") e, found) refl

  parse_signed :
      (now : ℤ) (opts : List ParserOption) (kf : Token JwtClaims → Result (Option ℕ))
      (m : SigningMethod ℕ) (h : Header) (c : JwtClaims) (sk vk : Option ℕ) (s : String)
      → cataloged.signed_string m h c sk ≡ ok s
      → ((t : Token JwtClaims) → t.alg ≡ m.alg → kf t ≡ ok vk)
      → Pairs m sk vk
      → All (Admits now m.alg c.registered) opts
      → ((expiry : ℤ) → c.registered.expires_at ≡ some expiry → ltb_ℤ now expiry ≡ true)
      → validate uuids c ≡ ok tt
      → cataloged.parse now opts kf s
        ≡ ok (record { alg = m.alg; header = h; claims = c; valid = true })
  unfolding cataloged
  parse_signed now opts kf m h c sk vk s signed keyed pair admitted fresh valid =
      let (a, known) = signed_same m h c sk s signed in
      rw
        (
          known,
          holds-true (All-Admits_dec now "ES256" c.registered opts) (rw (← a) admitted),
          before-true now _ fresh,
          valid,
          keyed (the_token (h, c)) (sym a),
          pair,
          a,
        )
        refl

  pub cataloged-IsJwtLib : IsJwtLib cataloged (λ c. c.registered) (validate uuids) Verifies Pairs
  unfolding cataloged
  cataloged-IsJwtLib = record {
    parse_admits = λ now opts kf s t e.
        let a = read_found-Accepted now opts kf (catalog.contents s) t e in
        rw (← a.same) a.admitted;
    parse_unexpired = λ now opts kf s t expiry e has.
        let a = read_found-Accepted now opts kf (catalog.contents s) t e in
        before-proof now _ expiry a.fresh (rw (← a.same) at has);
    parse_validates = λ now opts kf s t e.
        let a = read_found-Accepted now opts kf (catalog.contents s) t e in
        rw (← a.same) (a.valid, refl);
    parse_key = λ now opts kf s t e.
        let a = read_found-Accepted now opts kf (catalog.contents s) t e in
        rw (← a.same) (the_token a.p, some 7, refl, a.keyed, (refl, refl));
    parse_signed = parse_signed;
  }
