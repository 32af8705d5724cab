-- ===== src/Orders.antt =====
-- Orders: src/orders.
pub mod Status
pub mod Emit
pub mod Cancel
pub mod Pay
pub mod Create
pub mod Admin
pub mod Frames
pub mod Ledger
pub mod Calls
pub mod Privacy
pub mod Lifecycle
pub mod Preserve
pub mod Linked
pub mod Once
pub mod Expiry
pub mod Totals
