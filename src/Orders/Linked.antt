-- ===== src/Orders/Linked.antt =====
-- An order that a payment is linked to: no call of the orders service makes or leaves it an order by
-- cash on delivery, or pending, cancelled or expired.
pub mod Steps
pub mod Moving
pub mod Services
pub mod Placing
use rive_backend.Base.{
  ℕ, ◌≡◌, refl, Bool, true, false, not, ◌&&◌, ◌||◌, Option, none, some, List, [], ◌∷◌, arith, all,
  is_some, if◌then◌else◌, any, Bool-cases, inl, inr,
}
use rive_backend.Db.{update_where}
use rive_backend.Schema.{Order}
use rive_backend.Orders.Status.{OrderStatus, same_status, is_cod, includes, is_refused}
use rive_backend.Orders.Emit.{has_id}
use rive_backend.Orders.Cancel.{given_up, is_open_reservation, is_open_cod}
use rive_backend.Orders.Pay.{is_unpaid, marked_paid, moved_to, collected}
use rive_backend.Orders.Admin.{reshipped, UpdateOrderShippingDto}

abbrev pub is_unsettled : OrderStatus → Bool
is_unsettled s =
    same_status s OrderStatus.pending
    || same_status s OrderStatus.cancelled
    || same_status s OrderStatus.expired

abbrev pub is_well_linked : Order → Bool
is_well_linked o =
    not (is_some o.paymob_transaction_id)
    || (not (is_cod o.payment_method) && not (is_unsettled o.status))

abbrev pub Linked : List Order → Type 0
Linked os = all is_well_linked os ≡ true

-- An update that keeps the property of each row that it writes keeps that of the table.
pub all-update :
    {Row : Type 0} (q p : Row → Bool) (g : Row → Row) (t : List Row)
    → ((r : Row) → p r ≡ true → q r ≡ true → q (g r) ≡ true)
    → all q t ≡ true
    → all q (update_where p g t) ≡ true
all-update q p g [] keeps h = refl
all-update q p g (r ∷ t) keeps h = ground (arith, keeps r, all-update q p g t keeps)

pub paid-Linked :
    (user : Option ℕ) (r : Order)
    → is_well_linked r ≡ true
    → is_well_linked (marked_paid user r) ≡ true
paid-Linked user r h = ground arith

pub moved-Linked :
    (next : OrderStatus) (user : Option ℕ) (r : Order)
    → is_unsettled next ≡ false
    → is_well_linked r ≡ true
    → is_well_linked (moved_to next user r) ≡ true
moved-Linked next user r settled h = ground arith

-- A pending order and one by cash on delivery have no payment linked, so they may be given up.
pub reservation-Linked :
    (id : ℕ) (now : Option ℕ) (status : OrderStatus) (user : Option ℕ) (r : Order)
    → is_open_reservation id now r ≡ true
    → is_well_linked r ≡ true
    → is_well_linked (given_up status user r) ≡ true
unfolding is_open_reservation
reservation-Linked id now status user r hit h = ground arith

pub cod-Linked :
    (id : ℕ) (status : OrderStatus) (user : Option ℕ) (r : Order)
    → is_open_cod id r ≡ true
    → is_well_linked r ≡ true
    → is_well_linked (given_up status user r) ≡ true
unfolding is_open_cod
cod-Linked id status user r hit h = ground arith

-- A status that an order moves to, other than by payment or cancellation.
pub moved_settled :
    (before next : OrderStatus)
    → is_refused before next ≡ false
    → same_status before next ≡ false
    → (same_status next OrderStatus.cancelled || same_status next OrderStatus.expired) ≡ false
    → is_unsettled next ≡ false
unfolding is_refused
moved_settled before next allowed differs stays = ground arith
