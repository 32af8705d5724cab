-- ===== src/Payment/Refund.antt =====
-- `refundTransaction` of src/payment/paymob.service.ts.
use rive_backend.Base.{
  ℕ, zero, suc, not, ◌||◌, Option, none, some, ltb, if◌then◌else◌, pure, throw, throw_if, modify,
  ◌>>=◌, ◌>>◌, gets, or_throw, not_found, bad_request,
}
use rive_backend.Base.Text.{Text}
use rive_backend.Db.{Prisma}
use rive_backend.Schema.{Order}
use rive_backend.Store.{World, M, EventSource}
use rive_backend.Agent.Events.{Event, Actor, Reason}
use rive_backend.Agent.Mapper.{to_order_ref, to_contract_status, to_piasters}
use rive_backend.Agent.Outbox.{enqueue_in_tx}
use rive_backend.Orders.Status.{OrderStatus, PaymentStatus, same_status, is_refunded}
use rive_backend.Orders.Emit.{find_order, has_id, kick_agent}
use rive_backend.Orders.Cancel.{with_orders}
use rive_backend.Payment.Gateway.{Gateway, RefundReply, truthy_or}

-- `amount ? Math.round(amount * 100) : ...`, with an amount in millionths of a pound
unfoldable pub refund_cents : Option ℕ → ℕ → ℕ
unfolding to_piasters
refund_cents none total = to_piasters total
refund_cents (some zero) total = to_piasters total
refund_cents (some (suc n)) total = to_piasters (suc n)

abbrev pub refunded : Order → Order
refunded o = record o { status = OrderStatus.refunded; payment_status = PaymentStatus.refunded }

abbrev pub or_text : Option Text → Text → Text
or_text none d = d
or_text (some t) d = t

module _ (db : Prisma) (w : World) (g : Gateway) where
  -- The two events, by `enqueueSafe`, and the delivery.
  unfoldable pub tell_refunded : Order → Text → ℕ → M (Unit {0})
  unfolding enqueue_in_tx to_order_ref to_contract_status to_piasters kick_agent
  tell_refunded order refund_id cents =
      let ref = to_order_ref (refunded order) in
      if w.has_agent
      then (enqueue_in_tx db w EventSource.backend (
            Event.order_status_changed (record {
              order = ref;
              old = to_contract_status order.status order.payment_method;
              new = ref.status;
              backend_from = order.status;
              backend_to = OrderStatus.refunded;
              actor = Actor.admin;
              reason = some Reason.refund;
            }))
          >> enqueue_in_tx db w EventSource.paymob (
              Event.payment_refunded (record {
                order = ref;
                refund_id = refund_id;
                amount_piasters = cents;
                partial = ltb cents (to_piasters order.total_amount);
              }))
          >> kick_agent db w)
      else pure tt

  unfoldable pub finish_refund : Order → Text → ℕ → RefundReply → M ℕ
  unfolding tell_refunded
  finish_refund order transaction_id cents RefundReply.refused =
      throw (bad_request "Failed to process refund with Paymob")
  finish_refund order transaction_id cents RefundReply.failed =
      throw (bad_request "Failed to execute Paymob refund")
  finish_refund order transaction_id cents (RefundReply.done refund_id) = do
    modify (λ s. with_orders s (db.update_many (has_id order.id) refunded s.orders))
    tell_refunded order (or_text refund_id transaction_id) cents
    pure cents

  -- The guards on the order that was read; the result is the number of piasters.
  unfoldable pub refund_found : Order → Option ℕ → M ℕ
  unfolding finish_refund refund_cents
  refund_found order amount = do
    throw_if (same_status order.status OrderStatus.refunded || is_refunded order.payment_status)
        (bad_request "Order has already been refunded")
    throw_if (not (same_status order.status OrderStatus.paid))
        (bad_request "Only paid orders can be refunded")
    transaction_id ←
        or_throw (truthy_or order.paymob_transaction_id none)
          (bad_request "Order does not have a valid Paymob transaction ID for refund")
    let cents = refund_cents amount order.total_amount
    finish_refund order transaction_id cents (g.refund transaction_id cents)

  unfoldable pub refund_transaction : ℕ → Option ℕ → M ℕ
  unfolding find_order refund_found
  refund_transaction id amount = do
    found ← gets (find_order db w id)
    order ← or_throw found (not_found "Order not found")
    refund_found order amount
