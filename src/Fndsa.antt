-- ===== src/Fndsa.antt =====
-- backend/pkg/fndsa: the signing code, and the signer that keeps the part of the work that depends
-- only on the key (sign_precomputed.go). Slices of one buffer that do not overlap are lists of
-- their own.
pub mod Tree
pub mod Sampler
pub mod Keys
pub mod Core
pub mod Signer
pub mod Equivalence
pub mod Shape
pub mod Method
pub mod Interchange
pub mod Building
pub mod Attempts
pub mod Norm
pub mod NormExact
pub mod Agreement
