-- ===== src/External.antt =====
-- What the program takes from packages outside the repository: parameters, and the documented
-- behaviour that its properties rely on.
pub mod Uuid
pub mod Bcrypt
pub mod Gorm
pub mod Jwt
pub mod Fndsa
pub mod Circl
