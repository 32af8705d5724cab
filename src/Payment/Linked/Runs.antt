-- ===== src/Payment/Linked/Runs.antt =====
-- Whatever calls run, payments stay linked to orders that were paid for.
use rive_backend.Base.{ℕ}
use rive_backend.Db.{Prisma, IsPrisma, tables, tables-IsPrisma, on_every_db}
use rive_backend.Store.{Store, World}
use rive_backend.Orders.Calls.{Call, Run, perform}
use rive_backend.Orders.Ledger.{IsSound}
use rive_backend.Orders.Ledger.Calls.{Run-keeps}
use rive_backend.Orders.Linked.{Linked}
use rive_backend.Orders.Linked.Moving.{transition_status-Linked}
use rive_backend.Orders.Linked.Services.{
  mark_paid-Linked, mark_cod_collected-Linked, cancel_pending_order-Linked,
  cancel_by_order_number-Linked, expire_order-Linked, expire_pending_reservations-Linked,
  update_shipping-Linked,
}
use rive_backend.Orders.Linked.Placing.{create-Linked}
use rive_backend.Orders.Status.{OrderStatus}
use rive_backend.Payment.Gateway.{Gateway}
use rive_backend.Payment.Calls.{PaymentCall, ShopRun, perform_payment, perform_payment-keeps}
use rive_backend.Payment.Linked.{handle_webhook-Linked}
use rive_backend.Payment.Linked.Selling.{create_checkout_session-Linked, refund_transaction-Linked}

module _ (w : World) where
  perform-Linked : (k : Call) (s : Store) → Linked s.orders → Linked (perform tables w k s).orders
  unfolding perform
  perform-Linked (Call.creates dto user) s q = create-Linked w dto user s q
  perform-Linked (Call.pays id user) s q = mark_paid-Linked w id user s q
  perform-Linked (Call.collects id user) s q = mark_cod_collected-Linked w id user s q
  perform-Linked (Call.transitions id next user) s q = transition_status-Linked w id next user s q
  perform-Linked (Call.cancels_pending id user) s q =
      cancel_pending_order-Linked w id OrderStatus.cancelled user s q
  perform-Linked (Call.lapses_pending id user) s q =
      cancel_pending_order-Linked w id OrderStatus.expired user s q
  perform-Linked (Call.cancels_by_number number) s q = cancel_by_order_number-Linked w number s q
  perform-Linked (Call.expires_one id now) s q = expire_order-Linked w id now s q
  perform-Linked (Call.expires_all now) s q = expire_pending_reservations-Linked w now s q
  perform-Linked (Call.ships id dto user) s q = update_shipping-Linked w id dto user s q

Run-Linked : (s t : Store) → Run tables s t → Linked s.orders → Linked t.orders
Run-Linked s t (Run.done _) q = q
Run-Linked s t (Run.call w k _ _ fresh rest) q =
    Run-Linked (perform tables w k s) t rest (perform-Linked w k s q)

perform_payment-Linked :
    (w : World) (g : Gateway) (c : ℕ) (k : PaymentCall) (s : Store)
    → IsSound c s
    → Linked s.orders
    → Linked (perform_payment tables w g k s).orders
unfolding perform_payment
perform_payment-Linked w g c (PaymentCall.checks_out id caller) s sound q =
    create_checkout_session-Linked w g id caller s q
perform_payment-Linked w g c (PaymentCall.receives body signature) s sound q =
    handle_webhook-Linked w g c body signature s sound q
perform_payment-Linked w g c (PaymentCall.refunds id amount) s sound q =
    refund_transaction-Linked w g id amount s q

ShopRun_tables-Linked :
    (c : ℕ) (s t : Store) → ShopRun tables s t → IsSound c s → Linked s.orders → Linked t.orders
ShopRun_tables-Linked c s t (ShopRun.done _) sound q = q
ShopRun_tables-Linked c s t (ShopRun.orders _ m _ run rest) sound q =
    ShopRun_tables-Linked c m t rest (Run-keeps tables tables-IsPrisma 0 c s m run sound).sound
      (Run-Linked s m run q)
ShopRun_tables-Linked c s t (ShopRun.payment w g k _ _ rest) sound q =
    ShopRun_tables-Linked c (perform_payment tables w g k s) t rest
      (perform_payment-keeps w g 0 c k s sound).sound (perform_payment-Linked w g c k s sound q)

-- Over a database that keeps to its documentation, after whatever sequence of order calls,
-- checkouts, webhooks and refunds from sound books (new orders with fresh keys): if no payment is
-- linked at the start to an order that is by cash on delivery, pending, cancelled or expired, then
-- none is at the end.
pub ShopRun-Linked :
    (db : Prisma)
    → IsPrisma db
    → (c : ℕ) (s t : Store) → ShopRun db s t
    → IsSound c s
    → Linked s.orders
    → Linked t.orders
ShopRun-Linked =
    on_every_db
      (λ db.
        (c : ℕ) (s t : Store) → ShopRun db s t → IsSound c s → Linked s.orders → Linked t.orders)
      ShopRun_tables-Linked
