-- ===== src/Jwt/Header.antt =====
-- backend/pkg/utils/jwtutils/jwt.go, lines 346 to 379: what a header must and must not hold.
use tasktify.Prelude.{
  String, none, some, List, [], ◌∷◌, Result, ok, err, plain, ◌>>=◌, ◌>>◌, str_eq, if◌then◌else◌,
  lookup,
}
use tasktify.External.Jwt.{Header, text, other}
use tasktify.Jwt.Claims.{token_type_for_use}

abbrev pub key_bearing_headers : List String
key_bearing_headers = "jku" ∷ "jwk" ∷ "x5u" ∷ "x5c" ∷ "x5t" ∷ "x5t#S256" ∷ []

-- `if _, ok := token.Header[name]; ok { return errors.New(…) }`
unfoldable pub reject : String → Header → Result (Unit {0})
unfolding lookup
reject name h = elim (lookup name h) [ none ↦ ok tt | some _ ↦ err (plain name) ]

unfoldable pub reject_all : List String → Header → Result (Unit {0})
unfolding reject
reject_all [] h = ok tt
reject_all (name ∷ names) h = reject name h >>= λ _. reject_all names h

-- `got, _ := token.Header["typ"].(string)`
unfoldable pub typ_of : Header → String
unfolding lookup
typ_of h = elim (lookup "typ" h) [ none ↦ "" | some v ↦ elim v [ text s ↦ s | other ↦ "" ] ]

-- `if got != expected { return fmt.Errorf(…) }`, but for an empty expectation.
unfoldable pub check_typ : Header → String → Result (Unit {0})
unfolding typ_of
check_typ h expected =
    if str_eq expected ""
    then ok tt
    else if str_eq (typ_of h) expected
    then ok tt
    else err (plain "token typ does not match token_use")

unfoldable pub validate_token_type_header : Header → String → Result (Unit {0})
unfolding reject reject_all check_typ token_type_for_use
validate_token_type_header h token_use =
    reject "crit" h
    >> (reject "kid" h
        >> (reject_all key_bearing_headers h >> check_typ h (token_type_for_use token_use)))
