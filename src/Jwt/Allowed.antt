-- ===== src/Jwt/Allowed.antt =====
-- Every method's name is among the algorithms that Parse of backend/pkg/utils/jwtutils/jwt.go
-- allows.
use tasktify.Prelude.{
  String, Option, none, some, List, [], ◌∷◌, ◌++◌, str_eq, ◌≡◌, inl, inr, refl, sym, arith, eq_iff,
  In, Bool-cases, true, contains,
}
use tasktify.External.Jwt.{SigningMethod}
use tasktify.Jwt.Multi.{AlgConfig, Configs, allowed_from, add_alg}

In-append_left : (a : String) (xs ys : List String) → In a xs → In a (xs ++ ys)
In-append_left a (x ∷ xs) ys (inl e) = inl e
In-append_left a (x ∷ xs) ys (inr i) = inr (In-append_left a xs ys i)
In-append_left a [] ys i = elim i [ ]

In-append_last : (a : String) (xs : List String) → In a (xs ++ a ∷ [])
In-append_last a [] = inl refl
In-append_last a (x ∷ xs) = inr (In-append_last a xs)

In-contains : (a : String) (xs : List String) → contains a xs ≡ true → In a xs
In-contains a [] e = cc
In-contains a (x ∷ xs) e = elim (Bool-cases (str_eq x a)) [
  | inl same ↦ inl (sym ((eq_iff x a).0 same))
  | inr different ↦ inr (In-contains a xs (rw different at e))
]

module _ {Key : Type 0} where
  add_alg-keeps :
      (algs : List String) (m : Option (SigningMethod Key)) (a : String)
      → In a algs
      → In a (add_alg algs m)
  unfolding add_alg
  add_alg-keeps algs none a i = i
  add_alg-keeps algs (some m) a i = elim (Bool-cases (contains m.alg algs)) [
    | inl old ↦ rw old i
    | inr new ↦ rw new (In-append_left a algs (m.alg ∷ []) i)
  ]

  add_alg-has : (algs : List String) (m : SigningMethod Key) → In m.alg (add_alg algs (some m))
  unfolding add_alg
  add_alg-has algs m = elim (Bool-cases (contains m.alg algs)) [
    | inl old ↦ rw old (In-contains m.alg algs old)
    | inr new ↦ rw new (In-append_last m.alg algs)
  ]

  -- The loop of allowedHeaderAlgs drops nothing that it holds, and takes in each method's name.
  allowed_from-keeps :
      (algs : List String) (configs : Configs Key) (a : String)
      → In a algs
      → In a (allowed_from algs configs)
  unfolding allowed_from
  allowed_from-keeps algs [] a i = i
  allowed_from-keeps algs ((name, none) ∷ configs) a i = allowed_from-keeps algs configs a i
  allowed_from-keeps algs ((name, some cfg) ∷ configs) a i =
      allowed_from-keeps (add_alg algs cfg.method) configs a (add_alg-keeps algs cfg.method a i)

  pub allowed_from-has :
      (algs : List String) (configs : Configs Key) (name : String) (cfg : AlgConfig Key)
      (m : SigningMethod Key)
      → In (name, some cfg) configs
      → cfg.method ≡ some m
      → In m.alg (allowed_from algs configs)
  unfolding allowed_from
  allowed_from-has algs [] name cfg m i has = elim i [ ]
  allowed_from-has algs ((n, none) ∷ configs) name cfg m (inl e) has = absurd (cc e)
  allowed_from-has algs ((n, none) ∷ configs) name cfg m (inr i) has =
      allowed_from-has algs configs name cfg m i has
  allowed_from-has algs ((n, some c) ∷ configs) name cfg m (inl e) has =
      let taken : c.method ≡ some m = ground arith in
      allowed_from-keeps (add_alg algs c.method) configs m.alg (rw taken (add_alg-has algs m))
  allowed_from-has algs ((n, some c) ∷ configs) name cfg m (inr i) has =
      allowed_from-has (add_alg algs c.method) configs name cfg m i has
