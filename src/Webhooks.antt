-- ===== src/Webhooks.antt =====
-- internal/webhooks: the deliveries that CI systems post to trigger a deploy.
pub mod Retry
pub mod Receiver
