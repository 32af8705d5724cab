-- ===== src/Lib.antt =====
-- rive-backend: a model of the core of the shop's backend (NestJS and Prisma, TypeScript).
--
-- The program takes orders: it reserves stock, redeems coupons, computes the amounts, follows each
-- order through its statuses, gives stock and coupon uses back when an order is cancelled or its
-- reservation lapses, and reports each change to an external agent by an outbox.
--
-- Parts, and the files that model them:
--   Orders       src/orders/orders.service.ts. Orders/Status has the statuses and the table of
--                transitions, Orders/Emit the events (emitStockChanges, emitStatusChanged,
--                emitOrderCreated), Orders/Create and its children `create`, Orders/Cancel the
--                cancellations and the expiry, Orders/Pay markPaid, markCodCollected and
--                transitionStatus, Orders/Admin updateShipping, deleteOrderPermanently, findOne and
--                trackOrder. Orders/Calls has the calls as one type, and sequences of them.
--                Orders/Ledger and its children are about the books that the calls keep, Orders/Once
--                about idempotency keys, and Orders/Totals, Orders/Lifecycle, Orders/Expiry and
--                Orders/Privacy about what their names say.
--   Agent        src/agent-events: Agent/Mapper the payloads, Agent/Outbox the outbox and its worker,
--                with its children the proofs.
--   Payment      src/payment/paymob.service.ts. Payment/Gateway has what is exchanged with Paymob,
--                Payment/Checkout, Payment/Webhook and Payment/Refund the methods of these names,
--                Payment/Listing, Payment/Repair and Payment/Reconcile reconcilePayments.
--                Payment/Calls has sequences of these calls and those of the orders service. The
--                proofs are in Payment/Books, Payment/Events, Payment/Guards, Payment/WebhookOnce,
--                Payment/RefundOnce, Payment/Linking, Payment/Linked (with Orders/Preserve and
--                Orders/Linked for the orders service) and Payment/Idle.
--   Auth         src/auth/auth.service.ts: refresh, logout, changePassword and resetPassword, and in
--                Auth/Login login, in Auth/TwoFactor verifyTwoFactorLogin, on tables of their own
--                (users, refresh tokens and recovery codes). The proofs are in Auth/Rotation,
--                Auth/Locking, Auth/Passwords and Auth/TwoFactor/Codes.
--   Automation   src/automation/automation.service.ts: workflows and approvals, on tables of their own.
--   Referrals    src/referrals/referrals.service.ts, the proofs in Referrals/Counting.
--   Coupons      src/coupons/coupons.service.ts: validateCoupon, and the discount that both it and
--                `create` compute.
--   Util         src/common/utils: phone numbers, ownership of orders, pagination.
--   Audit        AuditLogService.record.
--   Schema       the rows of prisma/schema.prisma; Store the tables together, and the world.
--   Db           the database client, a parameter.
--   Examples     a small shop, and the theorems at concrete inputs.
--
-- A method is an action: a function from the store to a result (a value or an exception) and a
-- store. A throw keeps what was written before it, but a transaction rolls back. Prisma and
-- PostgreSQL are a parameter `db` with the documented meaning of its queries as the hypothesis
-- `IsPrisma db`; the plain lists `tables` are one such database. A transaction runs alone:
-- interleavings of transactions are not modelled. The clock, the configuration, random values,
-- replies of the agent and the success of the best-effort writes are fields of a `World`, a new one
-- for each call. Paymob, the hash of its signatures and its keys are a `Gateway`, likewise a new one
-- for each call; nothing is assumed of it.
--
-- Money is counted in millionths of a pound, a percentage in millionths of a percent: prices and
-- percentages have two decimals, so what the code computes of them is exact. A decimal column rounds
-- to two decimals what is stored, which is `to_decimal` of the database. Dates are milliseconds. Loops
-- are structural recursion over lists, so there is no fuel. Texts are lists of code units.
--
-- Not modelled: the set-up of two-factor codes, registration and the administration of users and
-- roles, the catalogue, customers, reports and exports, notifications and integrations, HTTP, logging,
-- signing of the agent's requests, the order list of the administration, and amounts too large for
-- their column.
pub mod Base
pub mod Db
pub mod Schema
pub mod Store
pub mod Audit
pub mod Util
pub mod Coupons
pub mod Orders
pub mod Agent
pub mod Auth
pub mod Automation
pub mod Examples
pub mod Payment
pub mod Referrals
