-- ===== src/Payment.antt =====
-- Card payments: src/payment/paymob.service.ts.
pub mod Gateway
pub mod Checkout
pub mod Webhook
pub mod Refund
pub mod Calls
pub mod Guards
pub mod Books
pub mod Events
pub mod Linking
pub mod Linked
pub mod Idle
pub mod RefundOnce
pub mod WebhookOnce
pub mod Listing
pub mod Repair
pub mod Reconcile
