-- ===== src/Fndsa/Attempts.antt =====
-- Proofs: the loop of signing ends with the first attempt that gives a signature.
use tasktify.Prelude.{
  ℕ, zero, suc, ◌+◌, ◌<◌, ◌≡◌, Option, none, some, Result, ok, err, panic, refl, subst, ◌≢◌, ◌∙◌,
  arith,
}
use tasktify.External.Jwt.{Bytes}
use tasktify.External.Fndsa.{FndsaLib}
use tasktify.Fndsa.Keys.{SigningKey}
use tasktify.Fndsa.Core.{Message, core_attempt, sign_core, sign_loop}

-- An outcome that ends the loop: anything but a candidate that is turned down.
abbrev pub Ends : Result (Option Bytes) → Type 0
Ends r = r ≢ ok none

module _ (attempt : ℕ → Result (Option Bytes)) where
  sign_loop-end :
      (counter fuel : ℕ) (r : Result (Option Bytes))
      → Ends r
      → attempt counter ≡ r
      → sign_loop attempt (suc fuel) counter ≡ r
  unfolding sign_loop
  sign_loop-end counter fuel (ok none) ends e = absurd (ends refl)
  sign_loop-end counter fuel (ok (some sig)) ends e = rw e
  sign_loop-end counter fuel (err x) ends e = rw e
  sign_loop-end counter fuel panic ends e = rw e

  sign_loop-retry :
      (counter fuel : ℕ)
      → attempt counter ≡ ok none
      → sign_loop attempt (suc fuel) counter ≡ sign_loop attempt fuel (counter + 1)
  unfolding sign_loop
  sign_loop-retry counter fuel e = rw e

  -- More rounds than those that are turned down are enough.
  pub sign_loop-first :
      (tries counter fuel : ℕ) (r : Result (Option Bytes))
      → tries < fuel
      → ((i : ℕ) → i < tries → attempt (counter + i) ≡ ok none)
      → Ends r
      → attempt (counter + tries) ≡ r
      → sign_loop attempt fuel counter ≡ r
  sign_loop-first tries counter zero r h before ends e = absurd (omega arith)
  sign_loop-first zero counter (suc fuel) r h before ends e =
      sign_loop-end counter fuel r ends (subst (λ c. attempt c ≡ r) (omega arith) e)
  sign_loop-first (suc tries) counter (suc fuel) r h before ends e =
      sign_loop-retry counter fuel
        (subst (λ c. attempt c ≡ ok none) (omega arith) (before 0 (omega arith)))
      ∙ sign_loop-first tries (counter + 1) fuel r (omega arith)
          (λ i p. subst (λ c. attempt c ≡ ok none) (omega arith) (before (suc i) (omega arith)))
          ends (subst (λ c. attempt c ≡ r) (omega arith) e)

module _ {F Prng : Type 0} (lib : FndsaLib F Prng) where
  -- Signing ends as soon as an attempt does not turn its candidate down: if the attempts with the
  -- counters below `tries` do, and the one with the counter `tries` gives a signature or an error,
  -- then any number of rounds above `tries` is enough for sign_core, and that is its result.
  sign_core-first :
      (k : SigningKey) (m : Message) (seed : Bytes) (tries fuel : ℕ) (r : Result (Option Bytes))
      → tries < fuel
      → ((i : ℕ) → i < tries → core_attempt lib k m seed i ≡ ok none)
      → Ends r
      → core_attempt lib k m seed tries ≡ r
      → sign_core lib k m seed fuel ≡ r
  unfolding sign_core
  sign_core-first k m seed tries fuel r h before ends e =
      sign_loop-first (core_attempt lib k m seed) tries 0 fuel r h
        (λ i p. subst (λ c. core_attempt lib k m seed c ≡ ok none) (omega arith) (before i p)) ends
        (subst (λ c. core_attempt lib k m seed c ≡ r) (omega arith) e)
