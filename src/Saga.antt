-- ===== src/Saga.antt =====
-- The three services together: their step on one input, and invariants of their runs.
pub mod Charged
pub mod Consistent
mod Processed
pub mod Units
pub mod Stock
pub mod Accounting
pub mod System
pub mod Safety
pub mod Messages
pub mod Redelivery
pub mod Ran
pub mod Repeats
pub mod Counts
pub mod Refunds
pub mod RefundedOnce
pub mod ExactlyOnce
pub mod Atomicity
pub mod Progress
pub mod Success
