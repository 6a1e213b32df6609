-- ===== src/Pqc.antt =====
-- backend/pkg/jwt: the methods of ML-DSA and SLH-DSA for tokens, which the repository adds to
-- golang-jwt.
pub mod Mldsa
pub mod Slhdsa
pub mod Separation
pub mod Pairs
