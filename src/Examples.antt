-- ===== src/Examples.antt =====
-- The programs of backend/ at concrete inputs: a table in memory, a library of tokens that knows
-- one token, and each theorem at a case where what it asks for holds.
pub mod Memory
pub mod Uuids
pub mod Equality
pub mod Decisions
pub mod Tokens
pub mod Catalog
pub mod Jwt
pub mod Loader
pub mod Bootstrap
pub mod Benchmark
pub mod Stats
pub mod Arithmetic
pub mod Fndsa
pub mod Pqc
pub mod Keygen
pub mod Todo
pub mod Auth
pub mod Reports
pub mod Rotation
pub mod Login
pub mod Trailers
pub mod Gateway
pub mod Listing
