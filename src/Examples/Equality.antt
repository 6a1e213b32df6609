-- ===== src/Examples/Equality.antt =====
-- Equality of claims and headers, decided.
use native.Mathlib.Decide.{ℕ_discrete}
use tasktify.Prelude.{String, List, str_eq, eq_iff, Bool-cases, inl, inr}
use tasktify.Prelude.Int.{ℤ}
use tasktify.External.Jwt.{HeaderValue, RegisteredClaims}
use tasktify.Jwt.Claims.{JwtClaims}

pub String_discrete : Discrete String
String_discrete s t = elim (Bool-cases (str_eq s t)) [
  | inl same ↦ yes ((eq_iff s t).0 same)
  | inr other ↦ no (λ e. absurd (cc ((eq_iff s t).1 e, other)))
]

ℤ_discrete : Discrete ℤ
ℤ_discrete = hlevel (ℕ_discrete)

HeaderValue_discrete : Discrete HeaderValue
HeaderValue_discrete = hlevel (String_discrete)

RegisteredClaims_discrete : Discrete RegisteredClaims
RegisteredClaims_discrete = hlevel (String_discrete, ℤ_discrete, ℕ_discrete)

pub JwtClaims_discrete : Discrete JwtClaims
JwtClaims_discrete = hlevel (String_discrete, RegisteredClaims_discrete, ℕ_discrete)

pub Header_discrete : Discrete (List (String × HeaderValue))
Header_discrete = hlevel (String_discrete, HeaderValue_discrete)
