-- ===== src/Offers.antt =====
-- src/offers: offers of membership, and how they are accepted or declined (`OffersService`).
pub mod Schema
pub mod Investment
pub mod Create
pub mod Status
pub mod Sale
pub mod Lite
