-- ===== src/Gateway.antt =====
-- backend/gateway: the HTTP interface in front of the two services.
pub mod Http
pub mod Middleware
pub mod Tasks
pub mod Accounts
pub mod Routes
pub mod Benchmark
