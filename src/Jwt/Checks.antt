-- ===== src/Jwt/Checks.antt =====
-- What the checks of backend/pkg/utils/jwtutils/jwt.go establish about claims, headers and keys.
use tasktify.Prelude.{
  String, none, List, [], ◌∷◌, ok, str_eq, ◌≡◌, ◌≢◌, ◌⊎◌, inl, inr, refl, arith, eq_iff, lookup,
  All, Bool-cases, ◌↔◌, true, false, >>-ok_iff, ok-injective,
}
use tasktify.External.Uuid.{UuidLib, nil}
use tasktify.External.Jwt.{Header, Token}
use tasktify.Jwt.Claims.{
  JwtClaims, validate, token_type_for_use, token_use_access, token_use_refresh,
}
use tasktify.Jwt.Header.{
  key_bearing_headers, reject, reject_all, typ_of, check_typ, validate_token_type_header,
}
use tasktify.Jwt.Util.{accept}

-- The claims that the program accepts.
pub record IsWellFormed (u : UuidLib) (c : JwtClaims) : Type 0 where
  pub has_user : c.user_id ≢ nil
  pub has_email : c.email ≢ ""
  pub use_known : (c.token_use ≡ token_use_access) ⊎ (c.token_use ≡ token_use_refresh)
  pub has_subject : c.subject ≢ ""
  pub subject_is_user : c.subject ≡ u.render c.user_id

-- JWTClaims.Validate accepts exactly the well-formed claims.
pub validate_iff : (u : UuidLib) (c : JwtClaims) → (validate u c ≡ ok tt) ↔ IsWellFormed u c
unfolding validate
validate_iff u c = (
  λ h. record {
    has_user = ground arith;
    has_email = ground (arith, eq_iff c.email "");
    use_known =
        ground (arith, eq_iff c.token_use token_use_access, eq_iff c.token_use token_use_refresh);
    has_subject = ground (arith, eq_iff c.subject "");
    subject_is_user = ground (arith, eq_iff c.subject (u.render c.user_id));
  },
  λ w. ground (
    arith,
    w.has_user,
    w.has_email,
    w.use_known,
    w.has_subject,
    w.subject_is_user,
    eq_iff c.email "",
    eq_iff c.token_use token_use_access,
    eq_iff c.token_use token_use_refresh,
    eq_iff c.subject "",
    eq_iff c.subject (u.render c.user_id),
  ),
)

-- The header that the program accepts for a use: no header that names a critical extension or a
-- key, and the type of that use.
pub record IsPlain (h : Header) (token_use : String) : Type 0 where
  pub no_crit : lookup "crit" h ≡ none
  pub no_kid : lookup "kid" h ≡ none
  pub no_keys : All (λ name. lookup name h ≡ none) key_bearing_headers
  pub typ : typ_of h ≡ token_type_for_use token_use

reject_iff : (name : String) (h : Header) → (reject name h ≡ ok tt) ↔ (lookup name h ≡ none)
unfolding reject
reject_iff name h = (λ e. ground arith, λ e. ground arith)

reject_all_iff :
    (names : List String) (h : Header)
    → (reject_all names h ≡ ok tt) ↔ All (λ name. lookup name h ≡ none) names
unfolding reject_all
reject_all_iff [] h = (λ e. tt, λ a. refl)
reject_all_iff (name ∷ names) h =
    let (to, from) = reject_all_iff names h in
    (λ e. (ground arith, to (ground arith)), λ a. rw (a.0, reject) (from a.1))

typed : (token_use : String) → str_eq (token_type_for_use token_use) "" ≡ false
unfolding token_type_for_use
typed token_use = elim (Bool-cases (str_eq token_use token_use_refresh)) [
  | inl e ↦ rw e
  | inr e ↦ rw e
]

typ_iff :
    (h : Header) (token_use : String)
    → (check_typ h (token_type_for_use token_use) ≡ ok tt)
      ↔ (typ_of h ≡ token_type_for_use token_use)
unfolding check_typ
typ_iff h token_use = (
  λ e. ground (arith, typed token_use, eq_iff (typ_of h) (token_type_for_use token_use)),
  λ e. ground (arith, typed token_use, eq_iff (typ_of h) (token_type_for_use token_use)),
)

-- validateTokenTypeHeader accepts exactly the plain headers of the type of the token's use.
pub validate_header_iff :
    (h : Header) (token_use : String)
    → (validate_token_type_header h token_use ≡ ok tt) ↔ IsPlain h token_use
unfolding validate_token_type_header
validate_header_iff h token_use = (
  λ e.
      let (a, e₁) = (>>-ok_iff (reject "crit" h) _).0 e in
      let (b, e₂) = (>>-ok_iff (reject "kid" h) _).0 e₁ in
      let (c, d) = (>>-ok_iff (reject_all key_bearing_headers h) _).0 e₂ in
      record {
        no_crit = (reject_iff "crit" h).0 a;
        no_kid = (reject_iff "kid" h).0 b;
        no_keys = (reject_all_iff key_bearing_headers h).0 c;
        typ = (typ_iff h token_use).0 d;
      },
  λ p. (>>-ok_iff (reject "crit" h) _).1 (
    (reject_iff "crit" h).1 p.no_crit,
    (>>-ok_iff (reject "kid" h) _).1 (
      (reject_iff "kid" h).1 p.no_kid,
      (>>-ok_iff (reject_all key_bearing_headers h) _).1
          ((reject_all_iff key_bearing_headers h).1 p.no_keys, (typ_iff h token_use).1 p.typ),
    ),
  ),
)

-- What `accept` asks of a token.
pub accept_iff :
    (t : Token JwtClaims) (c : JwtClaims)
    → (accept t ≡ ok c) ↔ ((t.valid ≡ true) × IsPlain t.header t.claims.token_use × (t.claims ≡ c))
unfolding accept
accept_iff t c = (
  λ e. elim (Bool-cases t.valid) [
    | inl ok_valid ↦
        let (checked, same) =
          (>>-ok_iff (validate_token_type_header t.header t.claims.token_use) _).0
            (rw (ok_valid, accept) at e) in
        (ok_valid, (validate_header_iff _ _).0 checked, ok-injective same)
    | inr bad ↦ absurd (ground arith)
  ],
  λ p.
      rw (p.0, accept, ← p.2)
        ((>>-ok_iff (validate_token_type_header t.header t.claims.token_use) _).1
          ((validate_header_iff _ _).1 p.1, refl)),
)
