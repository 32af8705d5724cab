-- ===== src/Orders/Create/Request.antt =====
-- A request for an order (src/orders/dto/create-order.dto.ts), and the checks of `create` before its
-- transaction (src/orders/orders.service.ts).
use rive_backend.Base.{
  ℕ, Bool, true, false, not, ◌&&◌, ◌||◌, Option, none, some, List, [], ◌∷◌, ◌==◌, ltb, leb,
  if◌then◌else◌, any, keep, take, pure, throw_if, ◌>>=◌, ◌>>◌, or_throw, bad_request,
}
use rive_backend.Base.Text.{Text, trim, is_blank}
use rive_backend.Schema.{SiteSettings, ProductStatus, Contact, Utm}
use rive_backend.Store.{M}
use rive_backend.Util.Phone.{normalize_egyptian_phone}
use rive_backend.Orders.Status.{PaymentMethod, is_cod}

-- `RESERVATION_DURATION_MS`
unfoldable pub reservation_duration_ms : ℕ
reservation_duration_ms = 1800000

-- `OrderItemDto`
pub record ItemDto : Type 0 where
  pub product_variant_id : ℕ
  pub quantity : ℕ

pub record CreateOrderDto : Type 0 where
  pub contact : Contact
  pub shipping_phone : Text
  pub utm : Utm
  pub idempotency_key : Option Text
  pub coupon_code : Option Text
  pub payment_method : Option PaymentMethod
  pub items : List ItemDto

-- `cleanUtm`: control characters go, then the white space at the ends, then what is too long.
unfoldable pub clean_utm : ℕ → Option Text → Option Text
unfolding trim
clean_utm max none = none
clean_utm max (some value) =
    let cleaned = trim (keep (λ c. not (leb c 0x1f || c == 0x7f)) value) in
    elim cleaned [ [] ↦ none | c ∷ s ↦ some (take max (c ∷ s)) ]

abbrev pub clean_utms : Utm → Utm
clean_utms u = record {
  source = clean_utm 100 u.source;
  medium = clean_utm 100 u.medium;
  campaign = clean_utm 150 u.campaign;
  content = clean_utm 150 u.content;
}

-- The truthy value of an optional text.
abbrev pub non_empty : Option Text → Option Text
non_empty (some []) = none
non_empty o = o

abbrev is_missing : Option Text → Bool
is_missing none = true
is_missing (some t) = is_blank t

abbrev pub is_nil {ℓ} : {A : Type ℓ} → List A → Bool
is_nil [] = true
is_nil (x ∷ xs) = false

-- The loop over `variantIds`.
unfoldable pub has_duplicate : List ℕ → List ItemDto → Bool
has_duplicate seen [] = false
has_duplicate seen (i ∷ is) =
    any (λ v. v == i.product_variant_id) seen || has_duplicate (i.product_variant_id ∷ seen) is

abbrev pub is_active : ProductStatus → Bool
is_active ProductStatus.active = true
is_active _ = false

abbrev pub method_of : CreateOrderDto → PaymentMethod
method_of dto = elim dto.payment_method [ none ↦ PaymentMethod.online | some m ↦ m ]

-- A setting that is present and positive.
abbrev pub positive : Option ℕ → Option ℕ
positive none = none
positive (some n) = if ltb 0 n then some n else none

abbrev pub setting : {A : Type 0} → (SiteSettings → Option A) → Option SiteSettings → Option A
setting f none = none
setting f (some t) = f t

-- The checks before the transaction; the result is the normalised phone.
unfoldable pub check_dto : CreateOrderDto → M Text
unfolding has_duplicate is_blank normalize_egyptian_phone
check_dto dto = do
  throw_if (is_nil dto.items) (bad_request "Order must include at least one item")
  throw_if (has_duplicate [] dto.items) (bad_request "Duplicate product variant in order")
  throw_if (is_blank dto.shipping_phone) (bad_request "Shipping phone is required")
  phone ←
      or_throw (normalize_egyptian_phone dto.shipping_phone)
        (bad_request "Invalid Egyptian phone number")
  throw_if (is_cod (method_of dto) && is_missing dto.contact.shipping_address)
      (bad_request "Shipping address is required for COD orders")
  pure phone
