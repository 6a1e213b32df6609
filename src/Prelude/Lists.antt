-- ===== src/Prelude/Lists.antt =====
-- Lists: measured by native numbers, tested by Boolean functions, and read as dictionaries.
use Prim.Native.Nat.{ℕ, zero, suc}
use Prim.Native.String.{String}
use mathlib.Core.Path.{◌≡◌, refl, subst}
use mathlib.Core.Logic.{◌⊎◌, inl, inr}
use mathlib.Core.Bool.{Bool, true, false, false, ◌||◌}
use mathlib.Core.List.{List, [], ◌∷◌, ◌++◌, map}
use mathlib.Core.Option.{Option, none, some, some-injective}
use native.Mathlib.Omega.{arith}
use text.Mathlib.Text.{◌==◌, ◌==◌ as str_eq}
use text.Mathlib.TextEquality.{eq_iff}
use tasktify.Prelude.Tests.{if◌then◌else◌, Bool-cases}

module _ {ℓ} {A : Type ℓ} where
  abbrev pub length : List A → ℕ
  length [] = 0
  length (x ∷ xs) = suc (length xs)

  -- xs[:n] and xs[n:]
  abbrev pub take : ℕ → List A → List A
  take zero xs = []
  take (suc n) [] = []
  take (suc n) (x ∷ xs) = x ∷ take n xs

  abbrev pub drop : ℕ → List A → List A
  drop zero xs = xs
  drop (suc n) [] = []
  drop (suc n) (x ∷ xs) = drop n xs

  -- The elements that pass a test, in order.
  abbrev pub select : (A → Bool) → List A → List A
  select p [] = []
  select p (x ∷ xs) = if p x then x ∷ select p xs else select p xs

  pub select-append :
      (p : A → Bool) (xs ys : List A) → select p (xs ++ ys) ≡ select p xs ++ select p ys
  select-append p [] ys = refl
  select-append p (x ∷ xs) ys = ground (arith, select-append p xs ys)

  -- A change of elements that leaves alone what passes the test, and makes nothing pass it.
  pub select-map :
      (q : A → Bool) (f : A → A)
      → ((x : A) → q x ≡ true → f x ≡ x)
      → ((x : A) → q x ≡ false → q (f x) ≡ false)
      → (xs : List A) → select q (map f xs) ≡ select q xs
  select-map q f keep skip [] = refl
  select-map q f keep skip (x ∷ xs) = elim (Bool-cases (q x)) [
    | inl kept ↦ rw (keep x kept, kept, select-map q f keep skip xs)
    | inr skipped ↦ rw (skip x skipped, skipped, select-map q f keep skip xs)
  ]

  -- A filter that drops only what fails the test.
  pub select-select :
      (q p : A → Bool)
      → ((x : A) → q x ≡ true → p x ≡ true)
      → (xs : List A) → select q (select p xs) ≡ select q xs
  select-select q p keep [] = refl
  select-select q p keep (x ∷ xs) = elim (Bool-cases (q x)) [
    | inl kept ↦ rw (keep x kept, kept, select-select q p keep xs)
    | inr skipped ↦ ground (arith, select-select q p keep xs)
  ]

-- Membership, as a predicate by recursion that the tactics open.
module _ {A : Type 0} where
  abbrev pub In : A → List A → Type 0
  In a [] = ⊥
  In a (x ∷ xs) = (a ≡ x) ⊎ In a xs

module _ {ℓ κ} {A : Type ℓ} where
  abbrev pub All : (A → Type κ) → List A → Type κ
  All P [] = Unit
  All P (x ∷ xs) = P x × All P xs

module _ {ℓ} {V : Type ℓ} where
  -- A Go map with string keys: the list holds its entries in the order of one iteration.
  unfoldable pub lookup : String → List (String × V) → Option V
  lookup k [] = none
  lookup k ((j, v) ∷ m) = if j == k then some v else lookup k m

  unfoldable pub insert : String → V → List (String × V) → List (String × V)
  insert k v [] = (k, v) ∷ []
  insert k v ((j, w) ∷ m) = if j == k then (j, v) ∷ m else (j, w) ∷ insert k v m

module _ {ℓ κ} {V : Type ℓ} where
  -- What holds of each entry holds of the one that is found.
  pub lookup-All :
      (P : String → V → Type κ) (k : String) (m : List (String × V)) (v : V)
      → All (λ e. P e.0 e.1) m
      → lookup k m ≡ some v
      → P k v
  unfolding lookup
  lookup-All P k [] v a e = absurd (cc e)
  lookup-All P k ((j, w) ∷ m) v a e = elim (Bool-cases (str_eq j k)) [
    | inl same ↦
        subst (P k) (some-injective w v (rw (same, lookup) at e))
          (subst (λ n. P n w) ((eq_iff j k).0 same) a.0)
    | inr different ↦ lookup-All P k m v a.1 (rw (different, lookup) at e)
  ]

-- Whether a text is in a list of texts.
abbrev pub contains : String → List String → Bool
contains a [] = false
contains a (x ∷ xs) = x == a || contains a xs
