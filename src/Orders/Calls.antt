-- ===== src/Orders/Calls.antt =====
-- The calls of `OrdersService` that write orders, stock or coupons, all but
-- `deleteOrderPermanently`, as one type, and sequences of them. Every call runs to its end before the next one begins; each has its own clock, random
-- values and replies of the agent.
use rive_backend.Base.{ℕ, ◌≡◌, false, Option}
use rive_backend.Base.Text.{Text}
use rive_backend.Db.{Prisma}
use rive_backend.Db.Keys.{has_key}
use rive_backend.Schema.{Order}
use rive_backend.Store.{Store, World}
use rive_backend.Orders.Status.{OrderStatus}
use rive_backend.Orders.Create.{CreateOrderDto, create}
use rive_backend.Orders.Cancel.{
  cancel_pending_order, cancel_by_order_number, expire_order, expire_pending_reservations,
}
use rive_backend.Orders.Pay.{mark_paid, mark_cod_collected, transition_status}
use rive_backend.Orders.Admin.{UpdateOrderShippingDto, update_shipping}

-- `cancelPendingOrder` takes the status `"CANCELLED" | "EXPIRED"`.
pub data Call : Type 0 where
  creates : CreateOrderDto → Option ℕ → Call
  pays collects : ℕ → Option ℕ → Call
  transitions : ℕ → OrderStatus → Option ℕ → Call
  cancels_pending lapses_pending : ℕ → Option ℕ → Call
  cancels_by_number : Text → Call
  expires_one : ℕ → ℕ → Call
  expires_all : ℕ → Call
  ships : ℕ → UpdateOrderShippingDto → Option ℕ → Call

module _ (db : Prisma) where
  unfoldable pub perform : World → Call → Store → Store
  perform w (creates dto user) s = (create db w dto user s).1
  perform w (pays id user) s = (mark_paid db w id user s).1
  perform w (collects id user) s = (mark_cod_collected db w id user s).1
  perform w (transitions id next user) s = (transition_status db w id next user s).1
  perform w (cancels_pending id user) s =
      (cancel_pending_order db w id OrderStatus.cancelled user s).1
  perform w (lapses_pending id user) s = (cancel_pending_order db w id OrderStatus.expired user s).1
  perform w (cancels_by_number number) s = (cancel_by_order_number db w number s).1
  perform w (expires_one id now) s = (expire_order db w id now s).1
  perform w (expires_all now) s = (expire_pending_reservations db w now s).1
  perform w (ships id dto user) s = (update_shipping db w id dto user s).1

  -- A sequence of calls. A new order's key, should the call need one, is not in use.
  pub data Run : Store → Store → Type 0 where
    done : (s : Store) → Run s s
    call :
        (w : World) (k : Call) (s t : Store)
        → has_key (λ (o : Order). o.id) w.new_order_id s.orders ≡ false
        → Run (perform w k s) t
        → Run s t
