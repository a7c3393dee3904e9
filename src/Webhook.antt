-- ===== src/Webhook.antt =====
-- Webhooks: which of them an event concerns, the outbox of deliveries, and their attempts.
pub mod Dispatch
pub mod Delivery
mod Scenarios
