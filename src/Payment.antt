-- ===== src/Payment.antt =====
-- src/payment/payment.service.ts: payments of organizations and their split between the members.
pub mod Batches
pub mod Split
pub mod Regular
pub mod Perform
pub mod Webhook
pub mod Merchant
