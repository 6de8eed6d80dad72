-- ===== src/Offers/Lite.antt =====
-- `OffersServiceLite` (src/offers/offers.service.lite.ts): offers to one member, offers that several
-- investors fund, and where the equity comes from.
pub mod Equity
pub mod Create
pub mod Invest
pub mod Accept
