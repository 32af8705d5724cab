-- ===== src/Orders/Status.antt =====
-- Order statuses and the table of allowed transitions: `enum OrderStatus`, `PaymentStatus` and
-- `PaymentMethod` of prisma/schema.prisma, and the head of src/orders/orders.service.ts.
use rive_backend.Base.{
  ℕ, Bool, true, false, List, [], ◌∷◌, ◌&&◌, not, ◌==◌, any, Action, throw_if, conflict,
}

pub data OrderStatus : Type 0 where
  pending confirmed processing paid shipped delivered cancelled refunded expired : OrderStatus

pub data PaymentStatus : Type 0 where
  pending paid failed refunded : PaymentStatus

pub data PaymentMethod : Type 0 where
  online cod : PaymentMethod

abbrev rank : OrderStatus → ℕ
rank OrderStatus.pending = 0
rank OrderStatus.confirmed = 1
rank OrderStatus.processing = 2
rank OrderStatus.paid = 3
rank OrderStatus.shipped = 4
rank OrderStatus.delivered = 5
rank OrderStatus.cancelled = 6
rank OrderStatus.refunded = 7
rank OrderStatus.expired = 8

-- `===` on statuses
abbrev pub same_status : OrderStatus → OrderStatus → Bool
same_status a b = rank a == rank b

abbrev pub is_paid : PaymentStatus → Bool
is_paid PaymentStatus.paid = true
is_paid _ = false

abbrev pub is_refunded : PaymentStatus → Bool
is_refunded PaymentStatus.refunded = true
is_refunded _ = false

abbrev pub is_cod : PaymentMethod → Bool
is_cod PaymentMethod.cod = true
is_cod PaymentMethod.online = false

-- `list.includes(status)`
abbrev pub includes : List OrderStatus → OrderStatus → Bool
includes list s = any (same_status s) list

unfoldable pub allowed_transitions : OrderStatus → List OrderStatus
allowed_transitions OrderStatus.pending =
    OrderStatus.confirmed ∷ OrderStatus.paid ∷ OrderStatus.cancelled ∷ OrderStatus.expired ∷ []
allowed_transitions OrderStatus.confirmed =
    OrderStatus.processing ∷ OrderStatus.paid ∷ OrderStatus.cancelled ∷ []
allowed_transitions OrderStatus.processing =
    OrderStatus.shipped ∷ OrderStatus.paid ∷ OrderStatus.cancelled ∷ []
allowed_transitions OrderStatus.paid =
    OrderStatus.confirmed ∷ OrderStatus.processing ∷ OrderStatus.shipped ∷ OrderStatus.refunded ∷ []
allowed_transitions OrderStatus.shipped = OrderStatus.delivered ∷ OrderStatus.refunded ∷ []
allowed_transitions OrderStatus.delivered = OrderStatus.refunded ∷ []
allowed_transitions _ = []

unfoldable pub order_statuses_holding_stock : List OrderStatus
order_statuses_holding_stock =
    OrderStatus.pending ∷ OrderStatus.confirmed ∷ OrderStatus.processing ∷ OrderStatus.paid ∷ []

-- The condition under which `assertTransition` throws.
unfoldable pub is_refused : OrderStatus → OrderStatus → Bool
unfolding allowed_transitions
is_refused current next =
    not (same_status current next) && not (includes (allowed_transitions current) next)

unfoldable pub assert_transition : {S : Type 0} → OrderStatus → OrderStatus → Action S (Unit {0})
unfolding is_refused
assert_transition current next =
    throw_if (is_refused current next) (conflict "Cannot transition order")
