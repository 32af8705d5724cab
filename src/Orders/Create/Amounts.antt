-- ===== src/Orders/Create/Amounts.antt =====
-- The prices, fees and totals that `create` computes (src/orders/orders.service.ts).
use rive_backend.Base.{
  ℕ, ◌+◌, ◌-◌, ◌*◌, Bool, false, not, ◌&&◌, ◌||◌, Option, none, some, List, [], ◌∷◌, ◌==◌, ltb, leb,
  if◌then◌else◌, is_some, find, sum_by, pure, throw_if, ◌>>=◌, ◌>>◌, or_throw, not_found,
  bad_request,
}
use rive_backend.Base.Text.{Text}
use rive_backend.Schema.{OrderItem, Variant, SiteSettings}
use rive_backend.Store.{M}
use rive_backend.Orders.Create.Request.{ItemDto, is_active, positive, setting}

-- One step of `dto.items.map`: the item with its price, from the variants that were read.
unfoldable pub price_item : List Variant → ItemDto → M OrderItem
price_item variants i = do
  v ←
      or_throw (find (λ (v : Variant). v.id == i.product_variant_id) variants)
        (not_found "Product variant was not found")
  throw_if (not v.is_available || is_some v.product.deleted_at || not (is_active v.product.status))
      (bad_request "Product variant is unavailable")
  pure (record {
    product_variant_id = v.id;
    quantity = i.quantity;
    unit_price = v.price;
    total_price = v.price * i.quantity;
  })

unfoldable pub price_items : List Variant → List ItemDto → M (List OrderItem)
unfolding price_item
price_items variants [] = pure []
price_items variants (i ∷ is) = do
  item ← price_item variants i
  items ← price_items variants is
  pure (item ∷ items)

abbrev pub subtotal_of : List OrderItem → ℕ
subtotal_of items = sum_by (λ (i : OrderItem). i.total_price) items

-- The redeemed coupon, with its discount.
pub record Redeemed : Type 0 where
  pub discount : ℕ
  pub coupon_id : Option ℕ
  pub coupon_code : Option Text

abbrev pub no_coupon : Redeemed
no_coupon = record { discount = 0; coupon_id = none; coupon_code = none }

-- The fees and the total, from the subtotal, the discount and the zone's price.
pub record Totals : Type 0 where
  pub shipping_fee : ℕ
  pub cod_fee : ℕ
  pub total_amount : ℕ

-- `Decimal.max(x, 0)` of a difference is the truncated difference.
abbrev pub is_free_shipping : Option ℕ → ℕ → Bool
is_free_shipping none after_discount = false
is_free_shipping (some threshold) after_discount = leb threshold after_discount

abbrev pub exceeds : Option ℕ → ℕ → Bool
exceeds none total = false
exceeds (some limit) total = ltb limit total

unfoldable pub compute_totals : Option SiteSettings → Bool → ℕ → ℕ → ℕ → M Totals
compute_totals settings cod subtotal discount zone_price =
    let threshold = positive (setting (λ t. t.free_shipping_threshold) settings) in
    let shipping_fee =
      (if is_free_shipping threshold (subtotal - discount) then 0 else zone_price) in
    let before_fee = (subtotal + shipping_fee) - discount in
    let max_amount = positive (setting (λ t. t.cod_max_amount) settings) in
    let fee : ℕ = elim settings [ none ↦ 0 | some t ↦ t.cod_fee ] in
    let cod_fee = (if cod then fee else 0) in
    (throw_if (cod && exceeds max_amount before_fee)
        (bad_request "Order total exceeds maximum allowed amount for COD")
      >> pure (record {
        shipping_fee = shipping_fee;
        cod_fee = cod_fee;
        total_amount = before_fee + cod_fee;
      }))
