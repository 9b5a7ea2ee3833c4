-- ===== src/OrderService.antt =====
-- order-service: the HTTP API that creates, reads and cancels orders.
pub mod Events
pub mod Handlers
