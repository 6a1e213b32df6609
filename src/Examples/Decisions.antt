-- ===== src/Examples/Decisions.antt =====
-- What the one token of the examples is tested for, decided.
use mathlib.Core.Logic.{dite}
use tasktify.Prelude.{
  ℕ, ◌≡◌, refl, sym, subst, ◌∙◌, inl, inr, String, Option, none, some, some-injective, List, [],
  ◌∷◌, Bool, true, false, Result, ok, err, panic, In, All, Bool-cases, arith, ◌==◌, Option-cases,
  ◌&&◌,
}
use tasktify.Prelude.Int.{ℤ, ltb_ℤ, leb_ℤ}
use tasktify.External.Jwt.{
  RegisteredClaims, ParserOption, with_valid_methods, with_issuer, with_issued_at, with_audience,
  Admits,
}
use tasktify.Examples.Equality.{String_discrete}

pub &&-true : (a b : Bool) → (a && b) ≡ true → (a ≡ true) × (b ≡ true)
&&-true true b e = (refl, e)
&&-true false b e = cc

pub In_dec : (s : String) (xs : List String) → Dec (In s xs)
In_dec s [] = no (λ i. i)
In_dec s (x ∷ xs) =
    dite (String_discrete s x) (λ e. yes (inl e))
      λ n. dite (In_dec s xs) (λ i. yes (inr i)) λ m. no (λ i. elim i [ inl e ↦ n e | inr j ↦ m j ])

pub Admits_dec :
    (now : ℤ) (alg : String) (c : RegisteredClaims) (o : ParserOption) → Dec (Admits now alg c o)
Admits_dec now alg c (with_valid_methods algs) = In_dec alg algs
Admits_dec now alg c (with_issuer issuer) =
    dite (String_discrete issuer "") (λ e. yes (λ n. absurd (n e)))
      λ n. dite (String_discrete c.issuer issuer) (λ e. yes (λ _. e)) λ m. no (λ f. m (f n))
Admits_dec now alg c with_issued_at = elim (Option-cases c.issued_at) [
  | inl missing ↦ yes (λ t e. cc)
  | inr (a, is) ↦ elim (Bool-cases (leb_ℤ a now)) [
    | inl past ↦
        yes (λ t e. subst (λ (x : ℤ). leb_ℤ x now ≡ true) (some-injective a t (sym is ∙ e)) past)
    | inr future ↦ no (λ f. let h : leb_ℤ a now ≡ true = f a is in cc)
  ]
]
Admits_dec now alg c (with_audience audience) =
    dite (String_discrete audience "") (λ e. yes (λ n. absurd (n e)))
      λ n. dite (In_dec audience c.audience) (λ i. yes (λ _. i)) λ m. no (λ f. m (f n))

pub All-Admits_dec :
    (now : ℤ) (alg : String) (c : RegisteredClaims) (os : List ParserOption)
    → Dec (All (Admits now alg c) os)
All-Admits_dec now alg c [] = yes tt
All-Admits_dec now alg c (o ∷ os) =
    dite (Admits_dec now alg c o)
      (λ a. dite (All-Admits_dec now alg c os) (λ b. yes (a, b)) λ m. no (λ p. m p.1))
      λ n. no (λ p. n p.0)

abbrev pub holds {ℓ} : {P : Type ℓ} → Dec P → Bool
holds (yes _) = true
holds (no _) = false

pub holds-true {ℓ} : {P : Type ℓ} (d : Dec P) → P → holds d ≡ true
holds-true (yes _) p = refl
holds-true (no n) p = absurd (n p)

pub holds-proof {ℓ} : {P : Type ℓ} (d : Dec P) → holds d ≡ true → P
holds-proof (yes p) e = p
holds-proof (no n) e = cc

abbrev pub is_ok : Result (Unit {0}) → Bool
is_ok (ok _) = true
is_ok (err _) = false
is_ok panic = false

pub is_ok-ok : (r : Result (Unit {0})) → is_ok r ≡ true → r ≡ ok tt
is_ok-ok (ok tt) e = refl
is_ok-ok (err _) e = cc
is_ok-ok panic e = cc

abbrev pub is_seven : Result (Option ℕ) → Bool
is_seven (ok (some k)) = k == 7
is_seven (ok none) = false
is_seven (err _) = false
is_seven panic = false

pub is_seven-ok : (r : Result (Option ℕ)) → is_seven r ≡ true → r ≡ ok (some 7)
is_seven-ok (ok (some k)) e = ground arith
is_seven-ok (ok none) e = cc
is_seven-ok (err _) e = cc
is_seven-ok panic e = cc

abbrev pub before : ℤ → Option ℤ → Bool
before now none = true
before now (some expiry) = ltb_ℤ now expiry

pub before-true :
    (now : ℤ) (o : Option ℤ)
    → ((expiry : ℤ) → o ≡ some expiry → ltb_ℤ now expiry ≡ true)
    → before now o ≡ true
before-true now none h = refl
before-true now (some expiry) h = h expiry refl

pub before-proof :
    (now : ℤ) (o : Option ℤ) (expiry : ℤ)
    → before now o ≡ true
    → o ≡ some expiry
    → ltb_ℤ now expiry ≡ true
before-proof now none expiry b e = cc
before-proof now (some x) expiry b e =
    subst (λ (y : ℤ). ltb_ℤ now y ≡ true) (some-injective x expiry e) b
