-- ===== src/Orders/Lifecycle.antt =====
-- The life of an order: the statuses that the table of transitions lets it reach, and what
-- `transitionStatus` does with the others (src/orders/orders.service.ts).
use rive_backend.Base.{ℕ, ◌≡◌, Bool, true, false, ◌||◌, Option, some, arith, err, conflict}
use rive_backend.Db.{Prisma, IsPrisma}
use rive_backend.Store.{Store, World}
use rive_backend.Schema.{Order}
use rive_backend.Orders.Emit.{find_order}
use rive_backend.Orders.Pay.{transition_status, transition_in_transaction}
use rive_backend.Orders.Status.{
  OrderStatus, allowed_transitions, is_refused, same_status, includes, order_statuses_holding_stock,
}

-- The statuses reached from one by steps that `assertTransition` lets pass.
pub data Reaches : OrderStatus → OrderStatus → Type 0 where
  here : (a : OrderStatus) → Reaches a a
  step : (a b c : OrderStatus) → is_refused a b ≡ false → Reaches b c → Reaches a c

-- Once shipped, an order is delivered or refunded.
abbrev pub is_out : OrderStatus → Bool
is_out s =
    same_status s OrderStatus.shipped
    || same_status s OrderStatus.delivered
    || same_status s OrderStatus.refunded

out_step : (a b : OrderStatus) → is_out a ≡ true → is_refused a b ≡ false → is_out b ≡ true
unfolding is_refused allowed_transitions
out_step OrderStatus.shipped b h k = ground arith
out_step OrderStatus.delivered b h k = ground arith
out_step OrderStatus.refunded b h k = ground arith
out_step OrderStatus.pending b h k = cc
out_step OrderStatus.confirmed b h k = cc
out_step OrderStatus.processing b h k = cc
out_step OrderStatus.paid b h k = cc
out_step OrderStatus.cancelled b h k = cc
out_step OrderStatus.expired b h k = cc

differs : (a b : OrderStatus) → is_refused a b ≡ true → same_status a b ≡ false
unfolding is_refused
differs a b h = ground arith

-- From shipped, delivered or refunded, the changes that `assertTransition` lets pass lead to one
-- of these three again, however many there are: never to a status that holds stock, and never to
-- cancelled or expired.
pub Reaches-is_out :
    (a b : OrderStatus)
    → Reaches a b
    → is_out a ≡ true
    → (is_out b ≡ true)
      × (includes order_statuses_holding_stock b ≡ false)
      × (same_status b OrderStatus.cancelled ≡ false)
      × (same_status b OrderStatus.expired ≡ false)
unfolding order_statuses_holding_stock
Reaches-is_out a _ (Reaches.here _) h = (h, ground arith, ground arith, ground arith)
Reaches-is_out a c (Reaches.step _ b _ k rest) h = Reaches-is_out b c rest (out_step a b h k)

-- A change of an order that the table of transitions does not have is refused: `transitionStatus`
-- throws a conflict and writes nothing, no audit entry, no event.
pub transition_status-refuses :
    (db : Prisma)
    → IsPrisma db
    → (w : World) (id : ℕ) (next : OrderStatus) (user : Option ℕ) (s : Store) (o : Order)
    → find_order db w id s ≡ some o
    → is_refused o.status next ≡ true
    → transition_status db w id next user s ≡ (err (conflict "Cannot transition order"), s)
unfolding transition_status transition_in_transaction
transition_status-refuses db h w id next user s o found refused =
    rw (found, refused, differs o.status next refused)
