-- ===== src/Bootstrap.antt =====
-- backend/auth-service/internal/config/app.go and backend/gateway/internal/config/app.go: what
-- Bootstrap makes of the settings of tokens. A call of Fatalf, which ends the process, is an error.
pub mod Texts
pub mod Passes
pub mod Login
pub mod Strict
use tasktify.Prelude.{
  String, List, [], ◌∷◌, Bool, true, false, not, Result, ok, ◌>>=◌, or_error, plain, str_eq, select,
  map, if◌then◌else◌,
}
use tasktify.Prelude.Int.{ℤ}
use tasktify.External.Jwt.{Bytes}
use tasktify.Jwt.Multi.{MultiUtil, Configs}
use tasktify.Jwt.Loader.{KeyLib, load_all_alg_configs}
use tasktify.Bootstrap.Texts.{split, trim_space}

-- The settings that viper reads; a text is empty where it is not set.
pub record Settings : Type 0 where
  pub keys_dir : String
  pub jwt_default_alg : String
  pub jwt_allowed_algs : String
  pub jwt_issuer : String
  pub jwt_audience : String
  pub jwt_token_duration : ℤ

-- supportedAlgorithms, the same in both services
abbrev pub supported_algorithms : List String
supported_algorithms =
    "FN-DSA-512" ∷ "FN-DSA-Precomputed-512" ∷ "Falcon-512" ∷ "Falcon-Precomputed-512" ∷ "HS256"
    ∷ "RS256" ∷ "ES256" ∷ "EdDSA" ∷ []

abbrev pub or_default : String → String → String
or_default value default = if str_eq value "" then default else value

abbrev pub or_supported : List String → List String
or_supported [] = supported_algorithms
or_supported (alg ∷ algs) = alg ∷ algs

-- auth-service: the parts of the list as they are.
unfoldable pub auth_algs : String → List String
auth_algs raw = or_supported (if str_eq raw "" then [] else split raw)

-- gateway: the parts without the white space around them, less those that are empty then.
unfoldable pub gateway_algs : String → List String
gateway_algs raw =
    or_supported
      (if str_eq raw "" then [] else select (λ t. not (str_eq t "")) (map trim_space (split raw)))

module _ {Key : Type 0} (k : KeyLib Key) (files : String → String → Result Bytes)
    (s : Settings) where
  -- files: the files of a directory by its path
  abbrev pub key_files : String → Result Bytes
  key_files = files (or_default s.keys_dir "./keys")

  -- NewMultiAlgJwtUtil with the settings
  unfoldable pub new_util : Configs Key → MultiUtil Key
  new_util configs = record {
    issuer = s.jwt_issuer;
    audience = s.jwt_audience;
    duration = s.jwt_token_duration;
    default_alg = or_default s.jwt_default_alg "FN-DSA-Precomputed-512";
    configs = configs;
  }

  unfoldable pub auth_bootstrap : Result (MultiUtil Key)
  unfolding new_util auth_algs
  auth_bootstrap = do
    configs ←
        or_error (plain "failed to load algorithm configs")
          (load_all_alg_configs k key_files (auth_algs s.jwt_allowed_algs) true)
    ok (new_util configs)

  -- The utility that verifies, and the one that signs for benchmarks, with all algorithms.
  unfoldable pub gateway_bootstrap : Result (MultiUtil Key × MultiUtil Key)
  unfolding new_util gateway_algs
  gateway_bootstrap = do
    configs ←
        or_error (plain "failed to load algorithm configs")
          (load_all_alg_configs k key_files (gateway_algs s.jwt_allowed_algs) false)
    benchmark ←
        or_error (plain "failed to load benchmark signing configs")
          (load_all_alg_configs k key_files supported_algorithms true)
    ok (new_util configs, new_util benchmark)
