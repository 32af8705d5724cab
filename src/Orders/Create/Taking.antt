-- ===== src/Orders/Create/Taking.antt =====
-- What `create` takes for an order: stock, the use of a coupon, the shipping zone
-- (src/orders/orders.service.ts).
use rive_backend.Base.{
  ℕ, ◌+◌, ◌-◌, Bool, false, not, ◌&&◌, Option, none, some, List, [], ◌∷◌, ◌==◌, leb, find, pure,
  throw, throw_if, modify, ◌>>=◌, ◌>>◌, gets, or_throw, bad_request, same_key,
}
use rive_backend.Base.Text.{Text, text_eq, trim, is_blank}
use rive_backend.Db.{Prisma}
use rive_backend.Schema.{Order, OrderItem, Variant, Coupon, ShippingZone}
use rive_backend.Store.{Store, World, M}
use rive_backend.Coupons.{has_expired, is_used_up, is_too_small, discount_by, find_coupon}
use rive_backend.Orders.Status.{OrderStatus, same_status}
use rive_backend.Orders.Emit.{is_live}
use rive_backend.Orders.Create.Amounts.{Redeemed, no_coupon}

module _ (db : Prisma) (w : World) where
  abbrev pub reservable : OrderItem → Variant → Bool
  reservable i v = v.id == i.product_variant_id && v.is_available && leb i.quantity v.stock

  -- The atomic decrement, conditional on the stock.
  unfoldable pub reserve_item : OrderItem → M (Unit {0})
  reserve_item i s =
      let updated = db.matched (reservable i) s.variants in
      (modify (λ t. record t {
        variants =
            db.update_many (reservable i)
              (λ (v : Variant). record v { stock = v.stock - i.quantity }) t.variants;
      })
          >> throw_if (not (updated == 1)) (bad_request "Insufficient stock for variant"))
        s

  unfoldable pub reserve_items : List OrderItem → M (Unit {0})
  unfolding reserve_item
  reserve_items [] = pure tt
  reserve_items (i ∷ is) = reserve_item i >> reserve_items is

  -- `tx.order.count` of the orders of a user with a coupon that still count
  abbrev pub uses_of_user : ℕ → ℕ → Order → Bool
  uses_of_user user coupon o =
      same_key o.user_id user
      && same_key o.coupon_id coupon
      && not (same_status o.status OrderStatus.cancelled)
      && not (same_status o.status OrderStatus.expired)
      && is_live o

  abbrev pub is_customer_limit_reached : Coupon → Option ℕ → Store → Bool
  is_customer_limit_reached k none s = false
  is_customer_limit_reached k (some user) s = elim k.usage_per_customer [
    | none ↦ false
    | some limit ↦ leb limit (db.matched (uses_of_user user k.id) s.orders)
  ]

  -- The `whereClause` of the increment.
  abbrev pub redeemable : Coupon → Coupon → Bool
  redeemable k row =
      row.id == k.id && row.is_active && not (is_used_up k.usage_limit row.usage_count)

  unfoldable pub count_use : Coupon → M (Unit {0})
  count_use k s =
      let updated = db.matched (redeemable k) s.coupons in
      (modify (λ t. record t {
        coupons =
            db.update_many (redeemable k)
              (λ (row : Coupon). record row { usage_count = row.usage_count + 1 }) t.coupons;
      })
          >> throw_if (not (updated == 1)) (bad_request "Coupon usage limit reached"))
        s

  -- The coupon that was found: its checks, and its use.
  unfoldable pub redeem_found : Coupon → Option ℕ → ℕ → M Redeemed
  unfolding count_use discount_by
  redeem_found k user subtotal = do
    throw_if (not k.is_active) (bad_request "Coupon is invalid or inactive")
    throw_if (has_expired w.now k.expires_at) (bad_request "Coupon has expired")
    throw_if (is_too_small k.min_order_amount subtotal)
        (bad_request "Minimum order amount for this coupon")
    reached ← gets (is_customer_limit_reached k user)
    throw_if reached (bad_request "Coupon customer usage limit reached")
    count_use k
    pure (record {
      discount = discount_by k.type k.value subtotal;
      coupon_id = some k.id;
      coupon_code = some k.code;
    })

  unfoldable pub redeem_coupon : Option Text → Option ℕ → ℕ → M Redeemed
  unfolding find_coupon redeem_found
  redeem_coupon none user subtotal = pure no_coupon
  redeem_coupon (some code) user subtotal = do
    found ← gets (find_coupon db w code)
    k ← or_throw found (bad_request "Coupon is invalid or inactive")
    redeem_found k user subtotal

  -- The active zone of the city, by its trimmed name in lower case.
  unfoldable pub find_zone : Option Text → M ShippingZone
  unfolding trim is_blank
  find_zone none s = throw (bad_request "Shipping city is required") s
  find_zone (some city) s =
      let zones = db.find_many (λ (z : ShippingZone). z.is_active) s.zones in
      (throw_if (is_blank city) (bad_request "Shipping city is required")
          >> or_throw
              (find
                (λ (z : ShippingZone). text_eq (w.lower (trim z.city_label)) (w.lower (trim city)))
                zones)
              (bad_request "No active shipping zone found for city"))
        s
