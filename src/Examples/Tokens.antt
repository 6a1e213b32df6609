-- ===== src/Examples/Tokens.antt =====
-- A library of tokens that knows one token, `token`, of the method ES256 with the key 7; it stands
-- for backend/pkg/jwt where a theorem needs one.
use tasktify.Prelude.{ℕ, ◌≡◌, refl, Option, ok}
use tasktify.External.Jwt.{Header, SigningMethod, JwtLib, IsJwtLib}
use tasktify.Jwt.Claims.{JwtClaims, validate}
use tasktify.Examples.Uuids.{uuids}
use tasktify.Examples.Catalog
use tasktify.Examples.Catalog.{
  Catalog, no_tokens, with_token, new_token, cataloged, cataloged-IsJwtLib, Verifies, Pairs,
}

module _ (h₀ : Header) (c₀ : JwtClaims) where
  abbrev pub one_entry : Catalog
  one_entry = with_token "token" h₀ c₀ no_tokens refl

  abbrev pub one_token : JwtLib ℕ JwtClaims
  one_token = cataloged one_entry

  -- The method's token is known, where its claims and its header are the known ones.
  pub signed_known :
      (m : SigningMethod ℕ) (sk : Option ℕ)
      → m.alg ≡ "ES256"
      → one_token.signed_string m h₀ c₀ sk ≡ ok "token"
  signed_known m sk e =
      Catalog.signed_known one_entry m h₀ c₀ sk "token" e (new_token "token" h₀ c₀ no_tokens refl)

  pub one_token-IsJwtLib :
      IsJwtLib one_token (λ c. c.registered) (validate uuids) (Verifies one_entry) (Pairs one_entry)
  one_token-IsJwtLib = cataloged-IsJwtLib one_entry
