-- ===== src/Examples/Fndsa.antt =====
-- The theorems on the signing of backend/pkg/fndsa, and on its methods in backend/pkg/jwt, at keys
-- of degree 4 and 512.
use tasktify.Prelude.{
  ℕ, zero, suc, ◌+◌, ◌-◌, ◌*◌, ◌^◌, ◌≡◌, refl, none, some, List, [], ◌∷◌, ◌++◌, ok, leb, ◌==◌, true,
  arith, err, plain, if◌then◌else◌,
}
use tasktify.Prelude.Int.{pos, mod_floor}
use tasktify.External.Jwt.{Bytes}
use tasktify.Examples.Arithmetic.{ones, small_lib, small_lib-IsSized}
use tasktify.Fndsa.Tree.{LdlTree, nil, node, build_ldl_tree}
use tasktify.Fndsa.Keys.{SigningKey, decode_key}
use tasktify.Fndsa.Core.{basis_to_fft, core_attempt, sign_inner, signature_size}
use tasktify.Fndsa.Signer.{
  PrecomputedSigner, new_precomputed_signer_inner, new_precomputed_signer, sign_with, is_valid,
  persistent_bytes,
}
use tasktify.Fndsa.Norm.{first_half, second_half, squared_norm}
use tasktify.Fndsa.Method.{
  PrecomputedMethod, nil_key, bytes, signer, token_message, expected_log_n, has_head, original_sign,
  original_verify, precomputed_sign, precomputed_verify, set_precomputed_signer,
}
use tasktify.Fndsa.Equivalence.{signer_of, gram_of, sign_with-eq-sign_inner}
use tasktify.Fndsa.Interchange.{precomputed_sign-eq-original_sign, precomputed_sign-verify}
use tasktify.Fndsa.Building.{new_precomputed_signer_total}
use tasktify.Fndsa.NormExact.{sum_squares, squared_norm_exact}
use tasktify.Fndsa.Shape.{none_is, leaves, is_valid-persistent_bytes}

-- A full tree of ones over leaves of one.
full : ℕ → LdlTree ℕ
unfolding ones
full zero = node 0 [] nil nil 1
full (suc n) = node (suc n) (ones 1 (2 ^ suc n)) (full n) (full n) 0

abbrev key_of : ℕ → SigningKey
key_of n = record {
  logn = n;
  small_f = [];
  small_g = [];
  big_f = [];
  big_g = [];
  hashed_vk = ones 0 64;
}

-- Keys of degree 4 and 512: the first byte, and as many others as the degree asks for.
abbrev weak_key : Bytes
weak_key = 82 ∷ ones 0 12

abbrev standard_key : Bytes
standard_key = 89 ∷ ones 0 1280

abbrev weak_signer : PrecomputedSigner ℕ
weak_signer = signer_of small_lib (key_of 2) (full 2)

abbrev standard_signer : PrecomputedSigner ℕ
standard_signer = signer_of small_lib (key_of 9) (full 9)

weak_made : new_precomputed_signer_inner small_lib 2 8 weak_key ≡ ok weak_signer
unfolding new_precomputed_signer_inner ones full
weak_made = refl

standard_made : new_precomputed_signer small_lib standard_key ≡ ok standard_signer
unfolding new_precomputed_signer ones full
standard_made = refl

abbrev two_bytes : Bytes
two_bytes = 7 ∷ 9 ∷ []

abbrev weak_signature : Bytes
weak_signature = 50 ∷ ones 0 40 ++ ones 0 (signature_size 2 - 41)

weak_attempt :
    core_attempt small_lib (key_of 2) (token_message two_bytes) (ones 5 40) 0
    ≡ ok (some weak_signature)
unfolding core_attempt ones signature_size mod_floor
weak_attempt = refl

sign_with-eq-sign_inner_example :
    sign_with small_lib (some weak_signer) (ok (ones 5 40)) (token_message two_bytes) 3
    ≡ sign_inner small_lib 2 8 (ok (ones 5 40)) weak_key (token_message two_bytes) 3
sign_with-eq-sign_inner_example =
    sign_with-eq-sign_inner small_lib 2 8 weak_key weak_signer weak_made (ok (ones 5 40))
      (token_message two_bytes) 3

abbrev fn512 : PrecomputedMethod ℕ
fn512 = record { name = "FN-DSA-512"; cached = none }

degree_512 : expected_log_n "FN-DSA-512" ≡ ok 9
unfolding expected_log_n
degree_512 = refl

precomputed_sign-eq-original_sign_example :
    (precomputed_sign small_lib fn512 (ok (ones 5 40)) two_bytes (bytes standard_key) 3
      ≡ original_sign small_lib (ok (ones 5 40)) two_bytes (bytes standard_key) 3)
    × (precomputed_sign small_lib fn512 (ok (ones 5 40)) two_bytes (signer (some standard_signer)) 3
        ≡ original_sign small_lib (ok (ones 5 40)) two_bytes (bytes standard_key) 3)
    × (precomputed_sign small_lib
          (set_precomputed_signer small_lib (some standard_signer) fn512)
          (ok (ones 5 40))
          two_bytes
          nil_key
          3
        ≡ original_sign small_lib (ok (ones 5 40)) two_bytes (bytes standard_key) 3)
precomputed_sign-eq-original_sign_example =
    precomputed_sign-eq-original_sign small_lib fn512 standard_key standard_signer standard_made
      degree_512 (ok (ones 5 40)) two_bytes 3

abbrev standard_signature : Bytes
standard_signature = 57 ∷ ones 0 40 ++ ones 0 (signature_size 9 - 41)

standard_signed :
    precomputed_sign small_lib fn512 (ok (ones 5 40)) two_bytes (bytes standard_key) 3
    ≡ ok (some standard_signature)
unfolding precomputed_sign ones signature_size new_precomputed_signer sign_with mod_floor
standard_signed = refl

-- A public key of degree 512: its first byte.
public_head : has_head 9 (9 ∷ two_bytes) ≡ true
unfolding has_head
public_head = refl

precomputed_sign-verify_example :
    (precomputed_verify small_lib fn512 two_bytes standard_signature (bytes (9 ∷ two_bytes))
      ≡ ok tt)
    × (original_verify small_lib two_bytes standard_signature (bytes (9 ∷ two_bytes)) ≡ ok tt)
precomputed_sign-verify_example =
    precomputed_sign-verify small_lib fn512 standard_key (9 ∷ two_bytes) standard_signer
      (λ read text sig fuel e. refl) standard_made degree_512 public_head (ok (ones 5 40)) two_bytes
      standard_signature 3 standard_signed

weak_decoded : decode_key small_lib 2 8 weak_key ≡ ok (key_of 2)
unfolding decode_key ones
weak_decoded = refl

abbrev gram : List ℕ × List ℕ × List ℕ
gram = gram_of small_lib (key_of 2)

new_precomputed_signer_total_example :
    (tree : LdlTree ℕ) × (build_ldl_tree small_lib 2 2 gram.0 gram.1 gram.2 ≡ ok tree)
    × (new_precomputed_signer_inner small_lib 2 8 weak_key ≡ (
        if none_is (λ x. x == 0) (leaves 2 tree)
        then ok (signer_of small_lib (key_of 2) tree)
        else err (plain "Invalid precomputed signer")))
new_precomputed_signer_total_example =
    new_precomputed_signer_total small_lib small_lib-IsSized 2 8 weak_key (key_of 2) (omega arith)
      (omega arith) weak_decoded

squared_norm_exact_example :
    (let total : ℕ =
        sum_squares (first_half pos (3 ∷ 1 ∷ []) (1 ∷ 4 ∷ []))
        + sum_squares (second_half pos two_bytes) in
      squared_norm (first_half pos (3 ∷ 1 ∷ []) (1 ∷ 4 ∷ [])) (second_half pos two_bytes)
      ≡ (if leb (2 ^ 31) total then 2 ^ 32 - 1 else total))
squared_norm_exact_example = squared_norm_exact pos (3 ∷ 1 ∷ []) (1 ∷ 4 ∷ []) two_bytes

weak_valid : is_valid small_lib (some weak_signer) ≡ true
unfolding is_valid ones full basis_to_fft
weak_valid = refl

is_valid-persistent_bytes_example :
    persistent_bytes (some weak_signer) ≡ (144 + 8 * 2) * 2 ^ 2 + 120
is_valid-persistent_bytes_example = is_valid-persistent_bytes small_lib weak_signer weak_valid
