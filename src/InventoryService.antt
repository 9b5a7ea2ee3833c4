-- ===== src/InventoryService.antt =====
-- inventory-service: the consumer that deducts stock and the two that put it back.
pub mod Events
pub mod Handler
