-- ===== src/Examples/Orders.antt =====
-- What the theorems on orders say of the shop.
use rive_backend.Base.{
  ◌+◌, ℕ, ◌≤◌, ◌≡◌, refl, true, false, none, some, List, [], ◌∷◌, arith, Result, ok, err, conflict,
  map, keep, length,
}
use rive_backend.Base.Text.{Text, codes, text_eq}
use rive_backend.Db.{tables, tables-IsPrisma}
use rive_backend.Schema.{Order, Variant, Coupon}
use rive_backend.Store.{Store}
use rive_backend.Util.Ownership.{Caller, Role, is_order_owned_by_actor}
use rive_backend.Orders.Status.{
  OrderStatus, is_refused, includes, same_status, order_statuses_holding_stock,
}
use rive_backend.Orders.Emit.{find_order}
use rive_backend.Orders.Create.{create, compute_totals}
use rive_backend.Orders.Cancel.{expire_order}
use rive_backend.Orders.Pay.{transition_status}
use rive_backend.Orders.Admin.{
  find_one, find_by_number, track_order, TrackedOrder, tracked, check_order_track_rate_limit,
  is_recent, attempts_of,
}
use rive_backend.Orders.Lifecycle.{Reaches, is_out, Reaches-is_out, transition_status-refuses}
use rive_backend.Orders.Privacy.{
  SamePhone, find_one-hides, track_order-knows_phone, check_order_track_rate_limit-bound,
}
use rive_backend.Orders.Expiry.{expire_order-spares}
use rive_backend.Orders.Create.{reservation_duration_ms}
use rive_backend.Orders.Totals.{AddsUp, IsBalanced, new_order-AddsUp}
use rive_backend.Schema.{Order, OrderItem}
use rive_backend.Orders.Create.{new_order, Redeemed, Totals}
use rive_backend.Orders.Once.{create-idempotent}
use rive_backend.Orders.Calls.{Call, Run, perform}
use rive_backend.Orders.Ledger.{IsSound, Keeps}
use rive_backend.Orders.Ledger.Calls.{Run-keeps}
use rive_backend.Examples.Shop.{two_shirts, shop, monday, tuesday, ordered, expired, placed}

pub shop-IsSound : IsSound 7 shop
shop-IsSound = record {
  order_keys = tt;
  variant_keys = (refl, tt);
  coupon_keys = (refl, tt);
  none_deleted = refl;
  balanced = refl;
}

Run-keeps_example : Keeps 1 7 shop expired
unfolding perform create expire_order
Run-keeps_example =
    Run-keeps tables tables-IsPrisma 1 7 shop expired
      (Run.call monday (Call.creates two_shirts none) shop expired refl
        (Run.call tuesday (Call.expires_one 1 9000000) ordered expired refl (Run.done expired)))
      shop-IsSound

-- Two shirts leave the stock with the order, and come back when its reservation lapses.
stock_of : Store → List ℕ
stock_of s = map (λ (v : Variant). v.stock) s.variants

uses_of : Store → List ℕ
uses_of s = map (λ (k : Coupon). k.usage_count) s.coupons

ordered_stock : (stock_of ordered ≡ 3 ∷ []) × (uses_of ordered ≡ 1 ∷ [])
unfolding stock_of uses_of perform create
ordered_stock = (refl, refl)

expired_stock : (stock_of expired ≡ 5 ∷ []) × (uses_of expired ≡ 0 ∷ [])
unfolding stock_of uses_of perform create expire_order
expired_stock = (refl, refl)

create-idempotent_example : create tables tuesday two_shirts (some 5) ordered ≡ (ok placed, ordered)
unfolding perform create
create-idempotent_example =
    create-idempotent tables tables-IsPrisma monday tuesday two_shirts two_shirts none (some 5)
      (codes "k-1") shop ordered placed refl refl refl

transition_status-refuses_example :
    transition_status tables tuesday 1 OrderStatus.delivered none ordered
    ≡ (err (conflict "Cannot transition order"), ordered)
unfolding perform create find_order is_refused
transition_status-refuses_example =
    transition_status-refuses tables tables-IsPrisma tuesday 1 OrderStatus.delivered none ordered
      placed refl refl

Reaches-is_out_example :
    (is_out OrderStatus.refunded ≡ true)
    × (includes order_statuses_holding_stock OrderStatus.refunded ≡ false)
    × (same_status OrderStatus.refunded OrderStatus.cancelled ≡ false)
    × (same_status OrderStatus.refunded OrderStatus.expired ≡ false)
unfolding is_refused
Reaches-is_out_example =
    Reaches-is_out OrderStatus.shipped OrderStatus.refunded
      (Reaches.step OrderStatus.shipped OrderStatus.delivered OrderStatus.refunded refl (
        Reaches.step OrderStatus.delivered OrderStatus.refunded OrderStatus.refunded refl
          (Reaches.here OrderStatus.refunded)))
      refl

abbrev stranger : Caller
stranger = record { user_id = some 9; role = some Role.customer; guest_access_token = none }

find_one-hides_example :
    (find_one tables monday (codes "R-1") stranger ordered).0
    ≡ (find_one tables monday (codes "R-1") stranger shop).0
unfolding perform create find_by_number is_order_owned_by_actor
find_one-hides_example =
    find_one-hides tables monday (codes "R-1") stranger ordered placed refl refl refl shop refl

abbrev track : Result TrackedOrder × Store
track = track_order tables monday (codes "R-1") (codes "+20 101 234 5678") ordered

track_order-knows_phone_example :
    (o : Order) × ((find_by_number tables monday (codes "R-1") ordered ≡ some o)
      × (tracked tables monday ordered.variants o ≡ tracked tables monday ordered.variants placed)
      × (SamePhone (codes "+20 101 234 5678") o.shipping_phone))
unfolding perform create track_order
track_order-knows_phone_example =
    track_order-knows_phone tables monday (codes "R-1") (codes "+20 101 234 5678") ordered track.1
      (tracked tables monday ordered.variants placed) refl

abbrev limit_checked : Store
limit_checked = (check_order_track_rate_limit tables monday (codes "R-1") ordered).1

check_order_track_rate_limit-bound_example :
    (length (keep (is_recent monday.now) (attempts_of (codes "R-1") limit_checked.track_attempts))
      ≤ 3)
    × ((other : Text)
        → text_eq (codes "R-1") other ≡ false
        → attempts_of other limit_checked.track_attempts ≡ attempts_of other ordered.track_attempts)
unfolding perform create attempts_of
check_order_track_rate_limit-bound_example =
    check_order_track_rate_limit-bound tables monday (codes "R-1") ordered (omega arith)

-- 10.10 pounds less five percent, with 50 pounds of shipping: 0.505 and 59.595 pounds.
abbrev five_percent : Redeemed
five_percent = record { discount = 505000; coupon_id = none; coupon_code = none }

abbrev sock : OrderItem
sock = record {
  product_variant_id = 1;
  quantity = 1;
  unit_price = 10100000;
  total_price = 10100000;
}

abbrev sock_totals : Totals
sock_totals = record { shipping_fee = 50000000; cod_fee = 0; total_amount = 59595000 }

abbrev sock_order : Order
sock_order =
    new_order tables monday two_shirts none (codes "+201012345678") (sock ∷ []) five_percent
      sock_totals

new_order-AddsUp_example :
    AddsUp none false 10100000 505000 50000000 sock_totals × IsBalanced 505000 sock_order
unfolding compute_totals
new_order-AddsUp_example =
    new_order-AddsUp tables tables-IsPrisma monday two_shirts none (codes "+201012345678") none
      (sock ∷ []) five_percent 50000000 shop shop sock_totals (omega arith) (1010, refl)
      (5000, refl) (0, refl) refl

-- As stored, they are a piaster more than the goods and the shipping.
sock_rounded : sock_order.total_amount + sock_order.discount ≡ sock_order.subtotal + 50010000
sock_rounded = refl

-- The reservation of `placed` lasts half an hour, until 2800000.
expire_order-spares_example : expire_order tables tuesday 1 2799999 ordered ≡ (ok false, ordered)
unfolding perform create find_order reservation_duration_ms
expire_order-spares_example =
    expire_order-spares tables tables-IsPrisma tuesday 1 2799999 ordered placed (refl, tt) refl refl
