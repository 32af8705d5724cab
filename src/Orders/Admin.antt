-- ===== src/Orders/Admin.antt =====
-- The reading and the administration of orders: `deleteOrderPermanently`, `updateShipping`,
-- `findByIdForAdmin`, `findOne` and `trackOrder` of src/orders/orders.service.ts.
use rive_backend.Base.{
  ℕ, ◌+◌, Bool, not, ◌&&◌, Option, none, some, List, [], ◌∷◌, ◌++◌, ◌==◌, ltb, leb, if◌then◌else◌,
  is_some, keep, length, pure, throw, throw_if, modify, ◌>>=◌, ◌>>◌, gets, or_throw, not_found,
  throttled, transaction, inl, inr,
}
use rive_backend.Base.Text.{Text, text_eq}
use rive_backend.Db.{Prisma}
use rive_backend.Schema.{Order, OrderItem, Variant, Tracking, Size}
use rive_backend.Store.{Store, World, M, shipping_update, deleted, track_failed}
use rive_backend.Audit.{record_audit}
use rive_backend.Util.Phone.{normalize_egyptian_phone, mask_phone_last3}
use rive_backend.Util.Ownership.{
  Caller, is_order_owned_by_actor, is_admin, timing_safe_string_equal,
}
use rive_backend.Orders.Status.{
  OrderStatus, PaymentStatus, PaymentMethod, includes, order_statuses_holding_stock,
}
use rive_backend.Orders.Emit.{is_live, has_id, find_order, order_items}
use rive_backend.Orders.Cancel.{or_keep, with_orders, release_coupon}

-- `UpdateOrderShippingDto`
pub record UpdateOrderShippingDto : Type 0 where
  pub carrier : Option Text
  pub tracking_number : Option Text
  pub tracking_url : Option Text
  pub shipping_address : Option Text

-- `...(value !== undefined ? { value } : {})`
abbrev given_or : Option Text → Option Text → Option Text
given_or none old = old
given_or (some t) old = some t

abbrev pub reshipped : UpdateOrderShippingDto → Option ℕ → Order → Order
reshipped dto actor_user o = record o {
  tracking = record {
    carrier = given_or dto.carrier o.tracking.carrier;
    tracking_number = given_or dto.tracking_number o.tracking.tracking_number;
    tracking_url = given_or dto.tracking_url o.tracking.tracking_url;
  };
  contact = record o.contact {
    shipping_address = given_or dto.shipping_address o.contact.shipping_address;
  };
  updated_by_id = or_keep actor_user o.updated_by_id;
}

-- The entries of `orderTrackRateMap`: the attempts of a number, and a new list of them.
unfoldable pub attempts_of : Text → List (Text × List ℕ) → List ℕ
attempts_of number [] = []
attempts_of number ((k, ts) ∷ m) = if text_eq k number then ts else attempts_of number m

unfoldable pub set_attempts : Text → List ℕ → List (Text × List ℕ) → List (Text × List ℕ)
set_attempts number ts [] = (number, ts) ∷ []
set_attempts number ts ((k, us) ∷ m) =
    if text_eq k number then (k, ts) ∷ m else (k, us) ∷ set_attempts number ts m

-- The number of the window's attempts, and their span in milliseconds.
abbrev pub max_attempts : ℕ
max_attempts = 3

-- `now - ts < windowMs`
unfoldable pub is_recent : ℕ → ℕ → Bool
is_recent now ts = ltb now (ts + 60000)

-- What `trackOrder` tells of an order and its items.
pub record TrackedItem : Type 0 where
  pub product_name : Text
  pub size : Option Size
  pub quantity : ℕ
  pub price : ℕ
  pub unit_price : ℕ
  pub total_price : ℕ

pub record TrackedOrder : Type 0 where
  pub order_number : Text
  pub status : OrderStatus
  pub payment_status : PaymentStatus
  pub payment_method : PaymentMethod
  pub created_at : ℕ
  pub total_amount : ℕ
  pub shipping_fee : ℕ
  pub cod_fee : ℕ
  pub tracking : Tracking
  pub shipping_city : Option Text
  pub items : List TrackedItem

-- `productVariant?.product?.name ?? ""` and `productVariant?.size ?? null`
abbrev pub name_in : Option Variant → Text
name_in none = []
name_in (some v) = v.product.name

abbrev pub size_in : Option Variant → Option Size
size_in none = none
size_in (some v) = v.size

abbrev pub normalized : Option Text → Option Text
normalized none = none
normalized (some t) = normalize_egyptian_phone t

-- The dummy phone that is compared where there is none.
abbrev pub or_dummy : Option Text → Text
or_dummy none =
    b'+' ∷ b'2' ∷ b'0' ∷ b'1' ∷ b'0' ∷ b'0' ∷ b'0' ∷ b'0' ∷ b'0' ∷ b'0' ∷ b'0' ∷ b'0' ∷ b'0' ∷ []
or_dummy (some t) = t

module _ (db : Prisma) (w : World) where
  unfoldable pub find_by_number : Text → Store → Option Order
  find_by_number number s =
      db.find_first (λ (o : Order). text_eq o.order_number number && is_live o) s.orders

  -- The increments of `deleteOrderPermanently`, which skip a variant that is not there.
  unfoldable pub return_items : List OrderItem → M (Unit {0})
  return_items [] = pure tt
  return_items (i ∷ is) =
      (modify (λ t. record t {
        variants =
            db.update_many (λ (v : Variant). v.id == i.product_variant_id)
              (λ (v : Variant). record v { stock = v.stock + i.quantity }) t.variants;
      })
        >> return_items is)

  unfoldable pub delete_in_transaction : ℕ → M Order
  unfolding find_order return_items release_coupon order_statuses_holding_stock order_items
  delete_in_transaction id = do
    found ← gets (find_order db w id)
    existing ← or_throw found (not_found "Order was not found")
    items ← gets (order_items db w id)
    (if includes order_statuses_holding_stock existing.status
        then (return_items items >> release_coupon db w existing.coupon_id)
        else pure tt)
    modify (λ t. with_orders t (db.delete_many (has_id id) t.orders))
    pure existing

  unfoldable pub delete_order_permanently : ℕ → Option ℕ → M ℕ
  unfolding delete_in_transaction record_audit order_statuses_holding_stock
  delete_order_permanently id actor_user = do
    order ← transaction (delete_in_transaction id)
    record_audit db w actor_user "order.delete" (inr order.id) (
        deleted order.order_number order.status
          (includes order_statuses_holding_stock order.status))
    pure order.id

  unfoldable pub find_by_id_for_admin : ℕ → M Order
  unfolding find_order
  find_by_id_for_admin id s = or_throw (find_order db w id s) (not_found "Order was not found") s

  unfoldable pub update_shipping : ℕ → UpdateOrderShippingDto → Option ℕ → M Order
  unfolding find_order record_audit
  update_shipping id dto actor_user = do
    found ← gets (find_order db w id)
    existing ← or_throw found (not_found "Order was not found")
    modify (λ t. with_orders t (db.update_many (has_id id) (reshipped dto actor_user) t.orders))
    record_audit db w actor_user "order.shipping.update" (inr id) shipping_update
    pure (reshipped dto actor_user existing)

  unfoldable pub find_one : Text → Caller → M Order
  unfolding find_by_number is_order_owned_by_actor
  find_one number caller = do
    found ← gets (find_by_number number)
    order ← or_throw found (not_found "Order was not found")
    throw_if
        (not (is_admin caller)
          && not (is_order_owned_by_actor order.user_id order.guest_access_token caller))
        (not_found "Order was not found")
    pure order

  unfoldable pub check_order_track_rate_limit : Text → M (Unit {0})
  unfolding is_recent attempts_of set_attempts
  check_order_track_rate_limit number s =
      let timestamps = keep (is_recent w.now) (attempts_of number s.track_attempts) in
      (throw_if (leb max_attempts (length timestamps)) (throttled "Too Many Requests")
          >> modify (λ t. record t {
            track_attempts = set_attempts number (timestamps ++ w.now ∷ []) t.track_attempts;
          }))
        s

  -- The decision of `trackOrder`: the order, if there is one and the phone is its own.
  unfoldable pub match_tracked : Text → Option Order → Option Order
  unfolding normalize_egyptian_phone timing_safe_string_equal
  match_tracked phone none = none
  match_tracked phone (some o) =
      let input = normalize_egyptian_phone phone in
      let own = normalized o.shipping_phone in
      let phone_matches = is_some input && timing_safe_string_equal input (some (or_dummy own)) in
      if is_some own && phone_matches then some o else none

  -- The items with the variants that were read with them.
  abbrev pub tracked_items : List Variant → List OrderItem → List TrackedItem
  tracked_items variants [] = []
  tracked_items variants (i ∷ is) =
      let found = db.find_first (λ (v : Variant). v.id == i.product_variant_id) variants in
      record {
        product_name = name_in found;
        size = size_in found;
        quantity = i.quantity;
        price = i.unit_price;
        unit_price = i.unit_price;
        total_price = i.total_price;
      }
      ∷ tracked_items variants is

  abbrev pub tracked : List Variant → Order → TrackedOrder
  tracked variants o = record {
    order_number = o.order_number;
    status = o.status;
    payment_status = o.payment_status;
    payment_method = o.payment_method;
    created_at = o.created_at;
    total_amount = o.total_amount;
    shipping_fee = o.shipping_fee;
    cod_fee = o.cod_fee;
    tracking = o.tracking;
    shipping_city = o.contact.shipping_city;
    items = tracked_items variants o.items;
  }

  -- The answer of `trackOrder`, with its audit entry where there is no match.
  unfoldable pub answer_tracked : Text → Text → Option Order → M TrackedOrder
  unfolding record_audit mask_phone_last3
  answer_tracked number phone (some o) = do
    variants ← gets (λ s. s.variants)
    pure (tracked variants o)
  answer_tracked number phone none =
      record_audit db w none "order.track_failed" (inl number)
        (track_failed (mask_phone_last3 phone))
      >> throw (not_found "Order not found")

  unfoldable pub track_order : Text → Text → M TrackedOrder
  unfolding check_order_track_rate_limit find_by_number match_tracked answer_tracked
  track_order number phone = do
    check_order_track_rate_limit number
    found ← gets (find_by_number number)
    answer_tracked number phone (match_tracked phone found)
