-- ===== src/Api.antt =====
-- src/api-service: the client of the chain, as far as it decides something itself.
pub mod Confirm
pub mod Send
