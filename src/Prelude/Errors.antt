-- ===== src/Prelude/Errors.antt =====
-- The results of fallible Go code. An `error` is a gRPC status (`status.Error`), an HTTP error of
-- the gateway (`fiber.NewError`), or any other error value, of which its text is kept; `panic` is a
-- run-time panic, such as a nil dereference.
use Prim.Native.Nat.{ℕ, zero, suc, ◌<◌}
use mathlib.Core.List.{List, [], ◌∷◌}
use native.Mathlib.Omega.{arith}
use tasktify.Prelude.Lists.{length}
use Prim.Native.String.{String}
use mathlib.Core.Path.{◌≡◌, refl, ap, subst}
use mathlib.Core.Bool.{Bool, true, false}
use tasktify.Prelude.Tests.{if◌then◌else◌}
use mathlib.Core.Logic.{◌⊎◌, ◌↔◌, inl, inr}

pub data GoError : Type 0 where
  grpc_status : ℕ → String → GoError
  fiber_error : ℕ → String → GoError
  plain : String → GoError

pub data Result {ℓ} (A : Type ℓ) : Type ℓ where
  ok : A → Result A
  err : GoError → Result A
  panic : Result A

infixl 5 ◌>>=◌ ◌>>◌
abbrev pub ◌>>=◌ {ℓ κ} : {A : Type ℓ} {B : Type κ} → Result A → (A → Result B) → Result B
ok a >>= f = f a
err e >>= f = err e
panic >>= f = panic

abbrev pub ◌>>◌ {ℓ} : {B : Type ℓ} → Result (Unit {0}) → Result B → Result B
m >> k = m >>= λ _. k

-- `if !b { return err }`
abbrev pub guard : Bool → GoError → Result (Unit {0})
guard true e = ok tt
guard false e = err e

-- `if err != nil { return status.Error(code, message) }`
abbrev pub or_error {ℓ} : {A : Type ℓ} → GoError → Result A → Result A
or_error e (ok a) = ok a
or_error e (err _) = err e
or_error e panic = panic

pub ok-injective {ℓ} : {A : Type ℓ} {a b : A} → ok a ≡ ok b → a ≡ b
ok-injective e = cc

pub err-injective {ℓ} : {A : Type ℓ} {e e' : GoError} → ◌≡◌ {A = Result A} (err e) (err e') → e ≡ e'
err-injective p = cc

-- A step with no value succeeds, and then the rest does.
pub >>-ok_iff {ℓ} :
    {B : Type ℓ} (m : Result (Unit {0})) (k : Result B) {b : B}
    → ((m >> k) ≡ ok b) ↔ ((m ≡ ok tt) × (k ≡ ok b))
>>-ok_iff (ok tt) k = (λ e. (refl, e), λ p. p.1)
>>-ok_iff (err e) k = (λ e. cc, λ p. absurd (cc (p.0)))
>>-ok_iff panic k = (λ e. cc, λ p. absurd (cc (p.0)))

pub guard->> {ℓ} :
    {B : Type ℓ} (b : Bool) (e : GoError) (m : Result B)
    → (guard b e >> m) ≡ (if b then m else err e)
guard->> true e m = refl
guard->> false e m = refl

-- What holds of a chain's value if it has one. The rules hand on each step's value.
pub record Ensures {ℓ κ} {A : Type ℓ} (P : A → Type κ) (m : Result A) : Type (ℓ ⊔ κ) where
  pub at : (a : A) → m ≡ ok a → P a

module _ {ℓ κ} {A : Type ℓ} {P : A → Type κ} where
  pub Ensures-ok : (a : A) → P a → Ensures P (ok a)
  Ensures-ok a p = record { at = λ b e. Ok-transport a b e p }
    where
      out : A → Result A → A
      out d (ok x) = x
      out d (err _) = d
      out d panic = d

      Ok-transport : (a b : A) → ok a ≡ ok b → P a → P b
      Ok-transport a b e = subst P (ap (out a) e)

  pub Ensures-last :
      (e : GoError) (m : Result A) → ((a : A) → m ≡ ok a → P a) → Ensures P (or_error e m)
  Ensures-last e (ok a) h = record { at = h }
  Ensures-last e (err _) h = record { at = λ a p. cc }
  Ensures-last e panic h = record { at = λ a p. cc }

  -- A test that has to succeed.
  pub Ensures-guard :
      (b : Bool) (e : GoError) (m : Result A)
      → (b ≡ true → Ensures P m)
      → Ensures P (guard b e >> m)
  Ensures-guard true e m h = h refl
  Ensures-guard false e m h = record { at = λ a p. cc }

module _ {ℓ κ ι} {A : Type ℓ} {B : Type κ} {P : B → Type ι} where
  pub Ensures-bind :
      (m : Result A) (f : A → Result B)
      → ((a : A) → m ≡ ok a → Ensures P (f a))
      → Ensures P (m >>= f)
  Ensures-bind (ok a) f h = h a refl
  Ensures-bind (err e) f h = record { at = λ a p. cc }
  Ensures-bind panic f h = record { at = λ a p. cc }

  -- A step whose error is replaced.
  pub Ensures-step :
      (e : GoError) (m : Result A) (f : A → Result B)
      → ((a : A) → m ≡ ok a → Ensures P (f a))
      → Ensures P (or_error e m >>= f)
  Ensures-step e (ok a) f h = h a refl
  Ensures-step e (err _) f h = record { at = λ a p. cc }
  Ensures-step e panic f h = record { at = λ a p. cc }

module _ {ℓ} {A : Type ℓ} where
  -- Neither an error nor a panic.
  abbrev pub IsOk : Result A → Type 0
  IsOk (ok a) = Unit
  IsOk (err _) = ⊥
  IsOk panic = ⊥

  abbrev pub IsErr : Result A → Type 0
  IsErr (ok a) = ⊥
  IsErr (err _) = Unit
  IsErr panic = ⊥

pub Result-cases {ℓ} :
    {A : Type ℓ} (m : Result A)
    → ((a : A) × (m ≡ ok a)) ⊎ ((e : GoError) × (m ≡ err e)) ⊎ (m ≡ panic)
Result-cases (ok a) = inl (a, refl)
Result-cases (err e) = inr (inl (e, refl))
Result-cases panic = inr (inr refl)

-- A chain that succeeds, with what holds of its value.
pub record Returns {ℓ κ} {A : Type ℓ} (P : A → Type κ) (m : Result A) : Type (ℓ ⊔ κ) where
  pub value : A
  pub returned : m ≡ ok value
  pub holds : P value

module _ {ℓ κ} {A : Type ℓ} {P : A → Type κ} where
  pub Returns-ok : (a : A) → P a → Returns P (ok a)
  Returns-ok a p = record { value = a; returned = refl; holds = p }

  pub Returns-bind {ι ζ} :
      {B : Type ι} {Q : B → Type ζ} {m : Result A} (f : A → Result B)
      → Returns P m
      → ((a : A) → P a → Returns Q (f a))
      → Returns Q (m >>= f)
  Returns-bind f r k = rw r.returned (k r.value r.holds)

  -- What returns, returns the value that it is said to hold of.
  pub Returns-equation : {m : Result A} → Returns P m → Returns (λ a. P a × (m ≡ ok a)) m
  Returns-equation r = record {
    value = r.value;
    returned = r.returned;
    holds = (r.holds, r.returned);
  }

-- values[i], which panics out of range
unfoldable pub value_at : {A : Type 0} → List A → ℕ → Result A
value_at [] i = panic
value_at (x ∷ xs) zero = ok x
value_at (x ∷ xs) (suc i) = value_at xs i

pub value_at-Returns :
    {A : Type 0} (xs : List A) (i : ℕ)
    → i < length xs
    → Returns (λ (_ : A). Unit {0}) (value_at xs i)
unfolding value_at
value_at-Returns [] i h = absurd (omega arith)
value_at-Returns (x ∷ xs) zero h = Returns-ok x tt
value_at-Returns (x ∷ xs) (suc i) h = value_at-Returns xs i (omega arith)
