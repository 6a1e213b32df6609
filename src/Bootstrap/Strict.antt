-- ===== src/Bootstrap/Strict.antt =====
-- Proofs: the auth-service does not start with a list of algorithms that has another part than
-- names of profiles.
use tasktify.Prelude.{
  String, none, some, List, [], ◌∷◌, Bool, true, Result, ok, ◌≡◌, ◌≢◌, sym, str_eq, eq_iff, In,
  Bool-cases, inl, inr, Ensures-step, ◌∙◌,
}
use tasktify.External.Jwt.{Bytes}
use tasktify.Jwt.Multi.{MultiUtil, Configs}
use tasktify.Jwt.Loader.{KeyLib, load_all_alg_configs, family_of}
use tasktify.Jwt.Loader.Agreement.{loaded_family}
use tasktify.Jwt.Loader.Loaded.{all_loaded}
use tasktify.Jwt.Loader.Entries.{load_all_alg_configs-names}
use tasktify.Bootstrap.Texts.{split}
use tasktify.Bootstrap.{Settings, or_supported, auth_algs, key_files, auth_bootstrap}

or_supported-In : (a : String) (algs : List String) → In a algs → In a (or_supported algs)
or_supported-In a [] i = elim i [ ]
or_supported-In a (alg ∷ algs) i = i

auth_algs-In : (raw part : String) → raw ≢ "" → In part (split raw) → In part (auth_algs raw)
unfolding auth_algs
auth_algs-In raw part filled i = elim (Bool-cases (str_eq raw "")) [
  | inl blank ↦ absurd (filled ((eq_iff raw "").0 blank))
  | inr other ↦ rw other (or_supported-In part (split raw) i)
]

module _ {Key : Type 0} (k : KeyLib Key) (dir : String → Result Bytes) (mode : Bool) where
  -- All names that LoadAllAlgConfigs is given are names of profiles, if it succeeds.
  asked_family :
      (algs : List String) (configs : Configs Key) (name : String)
      → load_all_alg_configs k dir algs mode ≡ ok configs
      → In name algs
      → family_of name ≢ none
  asked_family algs configs name loaded i =
      let (cfg, e) = (load_all_alg_configs-names k dir mode algs configs loaded).0 name i in
      let (c, is, own) = all_loaded k dir mode algs configs loaded (name, some cfg) e in
      let (family, found, _) = loaded_family k dir name mode c own in
      λ missing. cc (sym found ∙ missing)

module _ {Key : Type 0} (k : KeyLib Key) (files : String → String → Result Bytes)
    (s : Settings) where
  -- If JWT_ALLOWED_ALGS is set, and one of its parts between commas, taken with the white space
  -- around it, is not the name of a profile, Bootstrap of the auth-service does not succeed,
  -- whatever the keys.
  pub auth_bootstrap-strict :
      (part : String) (m : MultiUtil Key)
      → s.jwt_allowed_algs ≢ ""
      → In part (split s.jwt_allowed_algs)
      → family_of part ≡ none
      → auth_bootstrap k files s ≢ ok m
  unfolding auth_bootstrap
  auth_bootstrap-strict part m filled i unknown started =
      (Ensures-step {P = λ (_ : MultiUtil Key). ⊥} _
          (load_all_alg_configs k (key_files k files s) (auth_algs s.jwt_allowed_algs) true) _
          λ configs e. absurd (
            asked_family k (key_files k files s) true (auth_algs s.jwt_allowed_algs) configs part e
              (auth_algs-In s.jwt_allowed_algs part filled i) unknown)).at
        m started
