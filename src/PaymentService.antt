-- ===== src/PaymentService.antt =====
-- payment-service: the consumers of orders, the Stripe webhook, and the refund that both share.
pub mod Events
pub mod Refund
pub mod Handler
pub mod Webhook
