-- ===== src/Jwt.antt =====
-- backend/pkg/utils/jwtutils: issuing and accepting JSON web tokens.
pub mod Claims
pub mod Header
pub mod Util
pub mod Multi
pub mod Checks
pub mod Keys
pub mod KeyOrder
pub mod Acceptance
pub mod Allowed
pub mod Resolution
pub mod Issued
pub mod Issuance
pub mod Loader
pub mod Services
