-- ===== src/Payment/Repair.antt =====
-- The two repairs of `reconcilePayments` of src/payment/paymob.service.ts: an order that Paymob was
-- paid for, and that is pending, cancelled or expired.
use rive_backend.Base.{
  ℕ, ◌+◌, Bool, false, not, ◌&&◌, ◌||◌, Option, none, some, ◌==◌, ltb, if◌then◌else◌, pure, throw,
  ◌>>=◌, ◌>>◌, gets, transaction, bad_request, unique_violation, Result, ok, err,
}
use rive_backend.Base.Text.{Text, codes}
use rive_backend.Db.{Prisma}
use rive_backend.Schema.{Order, Coupon}
use rive_backend.Store.{Store, World, M, EventSource}
use rive_backend.Coupons.{is_used_up}
use rive_backend.Agent.Events.{Event, Actor, Reason}
use rive_backend.Agent.Mapper.{to_order_ref, ContractStatus}
use rive_backend.Agent.Outbox.{enqueue_in_tx}
use rive_backend.Orders.Status.{OrderStatus, PaymentStatus, same_status, is_paid}
use rive_backend.Orders.Emit.{find_order, has_id}
use rive_backend.Orders.Cancel.{with_orders}
use rive_backend.Orders.Create.{reserve_items}
use rive_backend.Orders.Pay.{mark_paid_in_transaction}
use rive_backend.Payment.Gateway.{Gateway, Transaction}
use rive_backend.Payment.Webhook.{record_event, link_transaction, links_to, emit_succeeded}

-- What a repair comes to: it was made (with a coupon used beyond its limit), or it was not, or the
-- stock does not suffice.
pub data Repair : Type 0 where
  made : Bool → Repair
  not_made short_of_stock : Repair

abbrev pub repair_event : Text
repair_event = codes "RECONCILIATION_AUTO_REPAIR"

-- `status: { in: [CANCELLED, EXPIRED] }`, `paymentStatus: { not: PAID }`
abbrev pub was_given_up : ℕ → Order → Bool
was_given_up id o =
    has_id id o
    && (same_status o.status OrderStatus.cancelled || same_status o.status OrderStatus.expired)
    && not (is_paid o.payment_status)

abbrev pub revived : Text → Order → Order
revived transaction_id o = record o {
  status = OrderStatus.paid;
  payment_status = PaymentStatus.paid;
  paymob_transaction_id = some transaction_id;
  reservation_expires_at = none;
}

module _ (db : Prisma) (w : World) (g : Gateway) where
  unfoldable pub repair_pending_in_transaction : ℕ → Text → Transaction → M Repair
  unfolding record_event mark_paid_in_transaction link_transaction emit_succeeded
  repair_pending_in_transaction id transaction_id t = do
    record_event db w g transaction_id repair_event (some id)
    mark_paid_in_transaction db w id none
    link_transaction db w g id transaction_id
    emit_succeeded db w g id transaction_id (g.rounded t.amount_cents)
    pure (made false)

  -- Whether the limit of the coupon was reached before.
  unfoldable pub recount_coupon : Option ℕ → M Bool
  recount_coupon none s = pure false s
  recount_coupon (some c) s = elim (db.find_first (λ (k : Coupon). k.id == c) s.coupons) [
    | none ↦ pure false s
    | some k ↦
        let hit =
          λ (row : Coupon). row.id == k.id && not (is_used_up k.usage_limit row.usage_count) in
        pure (not (db.matched hit s.coupons == 1)) (record s {
          coupons =
              db.update_many hit
                (λ (row : Coupon). record row { usage_count = row.usage_count + 1 }) s.coupons;
        })
  ]

  -- `if (this.agentEvents)`: the events of a revived order
  unfoldable pub tell_revived : Order → Text → Transaction → M (Unit {0})
  unfolding find_order enqueue_in_tx to_order_ref emit_succeeded
  tell_revived order transaction_id t = do
    found ← gets (λ s. if w.has_agent then find_order db w order.id s else none)
    elim found [
      | none ↦ pure tt
      | some o ↦
          let ref = to_order_ref o in
          enqueue_in_tx db w EventSource.backend (
            Event.order_status_changed (record {
              order = ref;
              old = ContractStatus.cancelled;
              new = ref.status;
              backend_from = order.status;
              backend_to = o.status;
              actor = Actor.system;
              reason = some Reason.payment_reconciliation;
            }))
          >> pure tt
    ]
    emit_succeeded db w g order.id transaction_id (g.rounded t.amount_cents)

  -- What follows the update of the order.
  unfoldable pub finish_revival : Order → Text → Transaction → M Repair
  unfolding reserve_items recount_coupon record_event tell_revived
  finish_revival order transaction_id t = do
    reserve_items db w order.items
    over ← recount_coupon order.coupon_id
    record_event db w g transaction_id repair_event (some order.id)
    tell_revived order transaction_id t
    pure (made over)

  unfoldable pub revive_in_transaction : Order → Text → Transaction → M Repair
  unfolding finish_revival
  revive_in_transaction order transaction_id t s =
      let hit = was_given_up order.id in
      let updated = db.matched hit s.orders in
      let linked = λ (o : Order). not (has_id order.id o) && links_to db w g transaction_id o in
      let s' = with_orders s (db.update_many hit (revived transaction_id) s.orders) in
      if ltb 0 updated && ltb 0 (db.matched linked s.orders)
      then throw unique_violation s
      else if not (updated == 1)
      then pure not_made s'
      else finish_revival order transaction_id t s'

  -- The `catch` of the two: whatever is thrown is logged, and a lack of stock is reported.
  unfoldable pub outcome : Result Repair × Store → Result Repair × Store
  outcome (ok r, s) = (ok r, s)
  outcome (err (bad_request m), s) = (ok short_of_stock, s)
  outcome (err e, s) = (ok not_made, s)

  unfoldable pub ignored_failure : Result Repair × Store → Result Repair × Store
  ignored_failure (ok r, s) = (ok r, s)
  ignored_failure (err e, s) = (ok not_made, s)

  unfoldable pub repair_pending : ℕ → Text → Transaction → M Repair
  unfolding repair_pending_in_transaction ignored_failure
  repair_pending id transaction_id t s =
      ignored_failure (transaction (repair_pending_in_transaction id transaction_id t) s)

  unfoldable pub revive : Order → Text → Transaction → M Repair
  unfolding revive_in_transaction outcome
  revive order transaction_id t s =
      outcome (transaction (revive_in_transaction order transaction_id t) s)
