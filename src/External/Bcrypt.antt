-- ===== src/External/Bcrypt.antt =====
-- golang.org/x/crypto/bcrypt as a parameter; a hash is kept as the text that the program stores.
use tasktify.Prelude.{String, Result, ok, ◌≡◌, ◌≢◌}

pub record BcryptLib : Type 0 where
  -- GenerateFromPassword(password, DefaultCost)
  pub generate : String → Result String
  -- CompareHashAndPassword(hash, password)
  pub compare : String → String → Result (Unit {0})

-- A password matches the hash that was generated from it, and a hash is not empty.
pub record IsBcrypt (b : BcryptLib) : Type 0 where
  pub compare_generate :
      (password hash : String) → b.generate password ≡ ok hash → b.compare hash password ≡ ok tt
  pub generate_filled : (password hash : String) → b.generate password ≡ ok hash → hash ≢ ""
