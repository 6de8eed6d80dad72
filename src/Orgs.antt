-- ===== src/Orgs.antt =====
-- src/orgs: organizations and `OrgsService` (src/orgs/orgs.service.ts).
pub mod Schema
pub mod Mint
pub mod Create
pub mod Update
pub mod Controller
