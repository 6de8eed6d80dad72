-- ===== src/Airdrop.antt =====
-- src/airdrop: the airdrop to the holders of the token (src/airdrop/airdrop.service.ts).
pub mod Schema
pub mod Matching
pub mod Classify
pub mod Claims
pub mod Usage
pub mod Claiming
