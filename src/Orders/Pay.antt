-- ===== src/Orders/Pay.antt =====
-- Payment and status changes of an order: `markPaidInTransaction`, `markCodCollected` and
-- `transitionStatus` of src/orders/orders.service.ts.
use rive_backend.Base.{
  ℕ, Bool, not, ◌&&◌, ◌||◌, Option, none, ◌==◌, if◌then◌else◌, is_some, pure, throw_if, modify,
  ◌>>=◌, ◌>>◌, gets, or_throw, not_found, bad_request, conflict, transaction, inr,
}
use rive_backend.Db.{Prisma}
use rive_backend.Schema.{Order}
use rive_backend.Store.{World, M, EventSource, status_change, payment_change}
use rive_backend.Audit.{record_audit, audited_transaction}
use rive_backend.Orders.Status.{
  OrderStatus, PaymentStatus, same_status, is_paid, is_cod, assert_transition,
}
use rive_backend.Orders.Emit.{
  has_id, find_order, find_order_details_by_id, emit_status_changed, kick_agent,
}
use rive_backend.Orders.Cancel.{
  default_actor, or_keep, with_orders, cancel_pending_order_in_transaction,
  cancel_cod_order_in_transaction,
}
use rive_backend.Agent.Events.{Event, Provider}
use rive_backend.Agent.Mapper.{to_order_ref, to_piasters}
use rive_backend.Agent.Outbox.{enqueue_in_tx}

-- `where: { id, paymentStatus: { not: PAID } }`
unfoldable pub is_unpaid : ℕ → Order → Bool
is_unpaid id o = has_id id o && not (is_paid o.payment_status)

abbrev pub marked_paid : Option ℕ → Order → Order
marked_paid updated_by o = record o {
  status = OrderStatus.paid;
  payment_status = PaymentStatus.paid;
  reservation_expires_at = none;
  updated_by_id = or_keep updated_by o.updated_by_id;
}

abbrev pub moved_to : OrderStatus → Option ℕ → Order → Order
moved_to status updated_by o = record o {
  status = status;
  updated_by_id = or_keep updated_by o.updated_by_id;
}

abbrev pub collected : Option ℕ → Order → Order
collected actor_user o = record o {
  payment_status = PaymentStatus.paid;
  updated_by_id = or_keep actor_user o.updated_by_id;
}

module _ (db : Prisma) (w : World) where
  -- What follows the guards of `markPaidInTransaction`, for the order that was read.
  unfoldable pub pay_found : ℕ → Option ℕ → Order → M Order
  unfolding is_unpaid assert_transition emit_status_changed find_order_details_by_id
  pay_found id updated_by order = do
    assert_transition order.status OrderStatus.paid
    updated ← gets (λ s. db.matched (is_unpaid id) s.orders)
    modify (λ s. with_orders s (db.update_many (is_unpaid id) (marked_paid updated_by) s.orders))
    throw_if (not (updated == 1)) (conflict "Order reservation has expired")
    emit_status_changed db w id order.status (default_actor updated_by) none
    find_order_details_by_id db w id

  unfoldable pub mark_paid_in_transaction : ℕ → Option ℕ → M Order
  unfolding pay_found find_order find_order_details_by_id
  mark_paid_in_transaction id updated_by = do
    found ← gets (find_order db w id)
    order ← or_throw found (not_found "Order not found")
    if same_status order.status OrderStatus.paid
        then find_order_details_by_id db w id
        else pay_found id updated_by order

  unfoldable pub mark_paid : ℕ → Option ℕ → M Order
  unfolding mark_paid_in_transaction
  mark_paid id updated_by = transaction (mark_paid_in_transaction id updated_by)

  -- The event of `markCodCollected`.
  unfoldable pub tell_collected : Option ℕ → Order → M (Unit {0})
  unfolding enqueue_in_tx to_order_ref to_piasters
  tell_collected actor_user details =
      if w.has_agent
      then (enqueue_in_tx db w EventSource.backend (
            Event.payment_succeeded (record {
              order = to_order_ref details;
              provider_txn_id = none;
              provider = Provider.cod;
              amount_piasters = to_piasters details.total_amount;
              paid_at = w.now;
              collected_by = actor_user;
            }))
          >> pure tt)
      else pure tt

  -- The write of `markCodCollected`, its audit entry and its event.
  unfoldable pub collect : ℕ → Option ℕ → Order → M Order
  unfolding record_audit find_order_details_by_id tell_collected
  collect id actor_user order = do
    modify (λ s. with_orders s (db.update_many (has_id id) (collected actor_user) s.orders))
    record_audit db w actor_user "order.cod_collected" (inr id)
        (payment_change order.payment_status PaymentStatus.paid)
    details ← find_order_details_by_id db w id
    tell_collected actor_user details
    pure details

  unfoldable pub collect_in_transaction : ℕ → Option ℕ → M Order
  unfolding collect find_order find_order_details_by_id
  collect_in_transaction id actor_user = do
    found ← gets (find_order db w id)
    order ← or_throw found (not_found "Order not found")
    throw_if (not (is_cod order.payment_method)) (bad_request "Order is not a COD order")
    throw_if
        (not (same_status order.status OrderStatus.shipped)
          && not (same_status order.status OrderStatus.delivered))
        (bad_request
          "COD collection can only be performed for orders in SHIPPED or DELIVERED status")
    if is_paid order.payment_status
        then find_order_details_by_id db w id
        else collect id actor_user order

  unfoldable pub mark_cod_collected : ℕ → Option ℕ → M Order
  unfolding collect_in_transaction
  mark_cod_collected id actor_user = audited_transaction (collect_in_transaction id actor_user)

  -- The branches of `transitionStatus` for an order that was read and a status that differs.
  unfoldable pub give_up : ℕ → OrderStatus → Option ℕ → Order → M Order
  unfolding cancel_cod_order_in_transaction cancel_pending_order_in_transaction
      find_order_details_by_id
  give_up id next actor_user before = do
    (if is_cod before.payment_method
        then (cancel_cod_order_in_transaction db w id next actor_user (default_actor actor_user)
            >>= λ cancelled. throw_if (not cancelled) (conflict "Order cannot be cancelled"))
        else (cancel_pending_order_in_transaction db w id next none actor_user
              (default_actor actor_user)
            >>= λ released. throw_if (not released) (conflict "Order is no longer pending")))
    find_order_details_by_id db w id

  unfoldable pub move : ℕ → OrderStatus → Option ℕ → Order → M Order
  unfolding emit_status_changed find_order_details_by_id
  move id next actor_user before = do
    modify (λ s. with_orders s (db.update_many (has_id id) (moved_to next actor_user) s.orders))
    after ← find_order_details_by_id db w id
    emit_status_changed db w id before.status (default_actor actor_user) none
    pure after

  unfoldable pub transition_found : ℕ → OrderStatus → Option ℕ → Order → M Order
  unfolding assert_transition give_up mark_paid_in_transaction move
  transition_found id next actor_user before = do
    assert_transition before.status next
    if same_status next OrderStatus.cancelled || same_status next OrderStatus.expired
        then give_up id next actor_user before
        else if same_status next OrderStatus.paid
        then mark_paid_in_transaction id actor_user
        else move id next actor_user before

  -- The transaction of `transitionStatus`, with `before` and `after`.
  unfoldable pub transition_in_transaction : ℕ → OrderStatus → Option ℕ → M (Order × Order)
  unfolding find_order find_order_details_by_id transition_found
  transition_in_transaction id next actor_user = do
    found ← gets (find_order db w id)
    before ← or_throw found (not_found "Order not found")
    after ←
        (if same_status before.status next
          then find_order_details_by_id db w id
          else transition_found id next actor_user before)
    pure (before, after)

  -- The audit entry of `transitionStatus`.
  unfoldable pub report_transition : Option ℕ → Order → Order → M (Unit {0})
  unfolding record_audit
  report_transition actor_user before after =
      if is_some actor_user && not (same_status before.status after.status)
      then record_audit db w actor_user "order.status-transition" (inr after.id)
          (status_change before.status after.status)
      else pure tt

  unfoldable pub transition_status : ℕ → OrderStatus → Option ℕ → M Order
  unfolding transition_in_transaction kick_agent report_transition
  transition_status id next actor_user = do
    result ← transaction (transition_in_transaction id next actor_user)
    kick_agent db w
    report_transition actor_user result.0 result.1
    pure result.1
