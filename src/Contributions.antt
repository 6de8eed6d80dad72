-- ===== src/Contributions.antt =====
-- `ContributionsService` (src/contributions/contributions.service.ts): work on an organization is
-- started and stopped; what it earned is split between the member and the investors, booked, and
-- minted, and the books are taken back where the mint fails.
pub mod Schema
pub mod Start
pub mod Stop
pub mod Mint
