-- ===== src/Orders/Create.antt =====
-- `OrdersService.create` (src/orders/orders.service.ts): the checks before the transaction, and
-- the steps inside it, in the order of the source.
mod Request
mod Amounts
mod Taking
unfoldable pub use Request.*
unfoldable pub use Amounts.*
unfoldable pub use Taking.*
use rive_backend.Base.{
  ℕ, ◌+◌, ◌-◌, ◌*◌, Bool, true, false, not, ◌&&◌, ◌||◌, Option, none, some, List, [], ◌∷◌, ◌==◌,
  ltb, leb, if◌then◌else◌, is_some, any, find, keep, take, sum_by, pure, throw, throw_if, modify,
  ◌>>=◌, ◌>>◌, gets, or_throw, not_found, bad_request, unique_violation, transaction, Result, ok,
  err, same_key,
}
use rive_backend.Base.Text.{Text, text_eq, trim, is_blank}
use rive_backend.Db.{Prisma}
use rive_backend.Schema.{
  Order, OrderItem, Variant, Coupon, ShippingZone, SiteSettings, ProductStatus, Contact, Utm,
}
use rive_backend.Store.{Store, World, M}
use rive_backend.Util.Phone.{normalize_egyptian_phone}
use rive_backend.Coupons.{has_expired, is_used_up, is_too_small, discount_by, find_coupon}
use rive_backend.Orders.Status.{OrderStatus, PaymentStatus, PaymentMethod, same_status, is_cod}
use rive_backend.Orders.Emit.{is_live, emit_order_created, kick_agent}

module _ (db : Prisma) (w : World) where
  abbrev pub same_text : Option Text → Option Text → Bool
  same_text none b = false
  same_text (some a) none = false
  same_text (some a) (some b) = text_eq a b

  -- The unique columns of `Order` that a new row fills.
  abbrev pub clashes : Order → Order → Bool
  clashes new o =
      text_eq o.order_number new.order_number
      || same_text o.idempotency_key new.idempotency_key
      || same_text o.guest_access_token new.guest_access_token

  unfoldable pub insert_order : Order → M Order
  insert_order o s =
      if ltb 0 (db.matched (clashes o) s.orders)
      then throw unique_violation s
      else pure o (record s { orders = db.create o s.orders })

  -- The row as the decimal columns keep it; the prices of the items have two decimals already.
  abbrev pub new_order :
      CreateOrderDto → Option ℕ → Text → List OrderItem → Redeemed → Totals → Order
  new_order dto user phone items redeemed totals =
      let token = (if is_some user then none else some w.new_guest_token) in
      let expiry =
        (if is_cod (method_of dto) then none else some (w.now + reservation_duration_ms)) in
      record {
        id = w.new_order_id;
        order_number = w.new_order_number;
        idempotency_key = non_empty dto.idempotency_key;
        guest_access_token = token;
        user_id = user;
        status = OrderStatus.pending;
        payment_status = PaymentStatus.pending;
        payment_method = method_of dto;
        cod_fee = db.to_decimal totals.cod_fee;
        subtotal = db.to_decimal (subtotal_of items);
        discount = db.to_decimal redeemed.discount;
        shipping_fee = db.to_decimal totals.shipping_fee;
        total_amount = db.to_decimal totals.total_amount;
        contact = dto.contact;
        shipping_phone = some phone;
        utm = clean_utms dto.utm;
        tracking = record { carrier = none; tracking_number = none; tracking_url = none };
        reservation_expires_at = expiry;
        payment_session_id = none;
        paymob_intention_id = none;
        paymob_transaction_id = none;
        coupon_id = redeemed.coupon_id;
        coupon_code = redeemed.coupon_code;
        updated_by_id = none;
        deleted_at = none;
        created_at = w.now;
        items = items;
      }

  abbrev pub wanted : CreateOrderDto → Variant → Bool
  wanted dto v = any (λ (i : ItemDto). i.product_variant_id == v.id) dto.items

  abbrev pub is_cod_disabled : Option SiteSettings → Bool
  is_cod_disabled none = false
  is_cod_disabled (some t) = not t.cod_enabled

  abbrev pub minimum_of : Option SiteSettings → Option ℕ
  minimum_of none = none
  minimum_of (some t) = positive (some t.minimum_order_amount)

  -- The end of the callback: the fees, the row and its events.
  unfoldable pub place_order :
      CreateOrderDto
      → Option ℕ
      → Text
      → Option SiteSettings
      → List OrderItem
      → Redeemed
      → ℕ
      → M Order
  unfolding compute_totals insert_order emit_order_created reservation_duration_ms clean_utm
  place_order dto user phone settings items redeemed price = do
    totals ←
        compute_totals settings (is_cod (method_of dto)) (subtotal_of items) redeemed.discount price
    created ← insert_order (new_order dto user phone items redeemed totals)
    emit_order_created db w created
    pure created

  -- The callback of the transaction.
  unfoldable pub create_in_transaction : CreateOrderDto → Option ℕ → Text → M Order
  unfolding price_items reserve_items redeem_coupon find_zone place_order
  create_in_transaction dto user phone = do
    settings ← gets (λ s. s.settings)
    throw_if (is_cod (method_of dto) && is_cod_disabled settings)
        (bad_request "Cash on Delivery (COD) is currently disabled")
    variants ← gets (λ s. db.find_many (wanted dto) s.variants)
    items ← price_items variants dto.items
    reserve_items db w items
    throw_if (is_too_small (minimum_of settings) (subtotal_of items))
        (bad_request "Minimum order amount")
    redeemed ← redeem_coupon db w (non_empty dto.coupon_code) user (subtotal_of items)
    zone ← find_zone db w dto.contact.shipping_city
    place_order dto user phone settings items redeemed zone.price

  -- `findUnique({ where: { idempotencyKey } })`
  unfoldable pub find_by_key : Option Text → Store → Option Order
  find_by_key none s = none
  find_by_key (some key) s =
      db.find_first (λ (o : Order). same_text o.idempotency_key (some key) && is_live o) s.orders

  -- The `catch` of the transaction: a clash may be a repeat of an order that exists by now.
  unfoldable pub recover : Option Text → Result Order × Store → Result Order × Store
  unfolding find_by_key
  recover key (ok o, s) = (ok o, s)
  recover key (err unique_violation, s) = elim (find_by_key key s) [
    | none ↦ throw unique_violation s
    | some o ↦ pure o s
  ]
  recover key (err e, s) = (err e, s)

  unfoldable pub place : CreateOrderDto → Option ℕ → Text → M Order
  unfolding create_in_transaction recover
  place dto user phone s =
      recover (non_empty dto.idempotency_key) (transaction (create_in_transaction dto user phone) s)

  -- `create`, less the customer's notification, which changes nothing here.
  unfoldable pub create_fresh : CreateOrderDto → Option ℕ → M Order
  unfolding check_dto place kick_agent
  create_fresh dto user = do
    phone ← check_dto dto
    order ← place dto user phone
    kick_agent db w
    pure order

  unfoldable pub create : CreateOrderDto → Option ℕ → M Order
  unfolding create_fresh find_by_key
  create dto user s = elim (find_by_key (non_empty dto.idempotency_key) s) [
    | some existing ↦ pure existing s
    | none ↦ create_fresh dto user s
  ]
