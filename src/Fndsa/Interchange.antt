-- ===== src/Fndsa/Interchange.antt =====
-- Proofs: the two FN-DSA methods make the same signatures, and accept the same ones.
use tasktify.Prelude.{
  ℕ, ◌≡◌, ◌↔◌, refl, Bool, true, Option, some, [], Result, ok, err, plain, ◌>>=◌, guard, or_error,
  arith, ==_iff, >>-ok_iff, GoError, panic, ap, ok-injective, sym, ◌∙◌,
}
use tasktify.External.Jwt.{Bytes}
use tasktify.External.Fndsa.{FndsaLib}
use tasktify.Fndsa.Core.{sign}
use tasktify.Fndsa.Signer.{PrecomputedSigner, new_precomputed_signer, log_n}
use tasktify.Fndsa.Equivalence.{sign_with-eq-sign_inner}
use tasktify.Fndsa.Method.{
  nil_key, bytes, signer, PrecomputedMethod, token_message, sha3_256, expected_log_n, has_head,
  original_sign, original_verify, validate_signer, find_signer, usable, signer_for_key,
  precomputed_sign, validate_public_key, precomputed_verify, set_precomputed_signer,
}

or_error-ok : {A : Type 0} (e : GoError) (r : Result A) {a : A} → or_error e r ≡ ok a → r ≡ ok a
or_error-ok e (ok x) h = h
or_error-ok e (err x) h = absurd (cc h)
or_error-ok e panic h = absurd (cc h)

checked_iff :
    (r : Result ℕ) (p : ℕ → Bool) (e : GoError)
    → ((r >>= λ n. guard (p n) e) ≡ ok tt) ↔ ((n : ℕ) × (r ≡ ok n) × (p n ≡ true))
checked_iff (ok n) p e =
    (λ h. (n, refl, ground arith), λ q. rw (ap p (ok-injective (q.1)) ∙ q.2) refl)
checked_iff (err x) p e = (λ h. absurd (cc h), λ q. absurd (cc (q.1)))
checked_iff panic p e = (λ h. absurd (cc h), λ q. absurd (cc (q.1)))

module _ {F Prng : Type 0} (lib : FndsaLib F Prng) where
  usable_lem :
      (m : PrecomputedMethod F) (ps : PrecomputedSigner F)
      → expected_log_n m.name ≡ ok ps.logn
      → usable lib m (some ps) ≡ ok ps
  unfolding usable validate_signer log_n
  usable_lem m ps e = rw e (rw ((==_iff ps.logn ps.logn).1 refl) refl)

  -- Where NewPrecomputedSigner makes a signer of a key, of the degree of the method's name: with
  -- the key itself, with the signer as the key, and with the signer that was set before and no key,
  -- the precomputed method signs exactly what the original method signs with the key.
  pub precomputed_sign-eq-original_sign :
      (m : PrecomputedMethod F) (key : Bytes) (ps : PrecomputedSigner F)
      → new_precomputed_signer lib key ≡ ok ps
      → expected_log_n m.name ≡ ok ps.logn
      → (read : Result Bytes) (signing_string : Bytes) (fuel : ℕ)
      → (let expected : Result (Option Bytes) =
            original_sign lib read signing_string (bytes key) fuel in
          (precomputed_sign lib m read signing_string (bytes key) fuel ≡ expected)
          × (precomputed_sign lib m read signing_string (signer (some ps)) fuel ≡ expected)
          × (precomputed_sign lib
                (set_precomputed_signer lib (some ps) m)
                read
                signing_string
                nil_key
                fuel
              ≡ expected))
  unfolding precomputed_sign signer_for_key find_signer original_sign set_precomputed_signer sign
      new_precomputed_signer
  precomputed_sign-eq-original_sign m key ps made degree read signing_string fuel =
      let same =
        sign_with-eq-sign_inner lib 9 10 key ps made read (token_message signing_string) fuel in
      (
        rw (made, usable_lem m ps degree, same) refl,
        rw (usable_lem m ps degree, same) refl,
        rw (usable_lem (set_precomputed_signer lib (some ps) m) ps degree, same) refl,
      )

  -- The precomputed method accepts a signature exactly if the original one does, and the key is one
  -- of the degree of the method's name.
  pub precomputed_verify_iff :
      (m : PrecomputedMethod F) (signing_string sig : Bytes) (key : Bytes)
      → (precomputed_verify lib m signing_string sig (bytes key) ≡ ok tt) ↔ (
          (original_verify lib signing_string sig (bytes key) ≡ ok tt)
          × ((logn : ℕ) × (expected_log_n m.name ≡ ok logn) × (has_head logn key ≡ true)))
  unfolding precomputed_verify original_verify validate_public_key
  precomputed_verify_iff m signing_string sig key =
      let step = >>-ok_iff (validate_public_key lib m key) (
        guard (lib.verify key [] sha3_256 signing_string sig)
          (plain "oqs/FN-DSA: verification error")) in
      let check =
        checked_iff (expected_log_n m.name) (λ n. has_head n key)
          (plain "FN-DSA public key does not match") in
      (λ h. ((step.0 h).1, check.0 ((step.0 h).0)), λ h. step.1 (check.1 (h.1), h.0))

  -- Where a signature of the key `key` is valid under `pk`, as documented, and both are of the
  -- degree of the method's name: what the precomputed method signs with `key`, both methods accept
  -- under `pk`.
  pub precomputed_sign-verify :
      (m : PrecomputedMethod F) (key pk : Bytes) (ps : PrecomputedSigner F)
      → ((read : Result Bytes) (text sig : Bytes) (fuel : ℕ)
          → sign lib read key (token_message text) fuel ≡ ok (some sig)
          → lib.verify pk [] sha3_256 text sig ≡ true)
      → new_precomputed_signer lib key ≡ ok ps
      → expected_log_n m.name ≡ ok ps.logn
      → has_head ps.logn pk ≡ true
      → (read : Result Bytes) (signing_string sig : Bytes) (fuel : ℕ)
      → precomputed_sign lib m read signing_string (bytes key) fuel ≡ ok (some sig)
      → (precomputed_verify lib m signing_string sig (bytes pk) ≡ ok tt)
        × (original_verify lib signing_string sig (bytes pk) ≡ ok tt)
  unfolding original_sign original_verify
  precomputed_sign-verify m key pk ps pair made degree head read text sig fuel signed =
      let original : original_sign lib read text (bytes key) fuel ≡ ok (some sig) =
        sym ((precomputed_sign-eq-original_sign m key ps made degree read text fuel).0) ∙ signed in
      let valid : lib.verify pk [] sha3_256 text sig ≡ true =
        pair read text sig fuel (or_error-ok _ _ original) in
      let accepted : original_verify lib text sig (bytes pk) ≡ ok tt = rw valid refl in
      ((precomputed_verify_iff m text sig pk).1 (accepted, (ps.logn, degree, head)), accepted)
