-- ===== src/Webhooks.antt =====
-- src/webhook-url.ts and src/webhook-service.ts: which URLs a webhook may have, and the delivery.
pub mod Addresses
pub mod Url
pub mod Delivery
