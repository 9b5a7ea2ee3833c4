-- ===== src/Db.antt =====
-- internal/db: the tables, one run of a transaction, and a child for each repository.
mod Schema
mod Transaction
mod Rules
pub mod Orders
pub mod Outbox
pub mod Claims
pub mod Products
pub mod ProcessedEvents
pub mod Payments
pub mod Faults
unfoldable pub use Schema.*
unfoldable pub use Transaction.*
pub use Rules.*
