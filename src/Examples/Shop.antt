-- ===== src/Examples/Shop.antt =====
-- A small shop, a request for an order, and two days.
use rive_backend.Base.{true, none, some, [], ◌∷◌}
use rive_backend.Base.Text.{codes}
use rive_backend.Db.{tables}
use rive_backend.Schema.{
  size_m, Order, Variant, Coupon, ShippingZone, Contact, Utm, ProductStatus, CouponType,
}
use rive_backend.Store.{Store, World, answered}
use rive_backend.Orders.Create.{CreateOrderDto, new_order}
use rive_backend.Orders.Calls.{Call, perform}

abbrev pub shirt : Variant
shirt = record {
  id = 1;
  product = record {
    id = 1;
    name = codes "Shirt";
    status = ProductStatus.active;
    deleted_at = none;
  };
  size = some size_m;
  sku = codes "SH-1";
  price = 200000000;
  stock = 5;
  is_available = true;
}

abbrev pub tenth_off : Coupon
tenth_off = record {
  id = 7;
  code = codes "TEN";
  type = CouponType.percentage;
  value = 10000000;
  expires_at = none;
  usage_limit = some 3;
  usage_count = 0;
  usage_per_customer = none;
  min_order_amount = none;
  is_active = true;
}

abbrev pub cairo : ShippingZone
cairo = record { id = 1; city_label = codes "cairo"; price = 50000000; is_active = true }

abbrev pub empty_contact : Contact
empty_contact = record {
  customer_name = none;
  customer_email = none;
  shipping_address = some (codes "Street 1");
  shipping_city = some (codes "cairo");
  shipping_country = none;
  shipping_zip_code = none;
  notes = none;
}

abbrev pub no_utm : Utm
no_utm = record { source = none; medium = none; campaign = none; content = none }

abbrev pub two_shirts : CreateOrderDto
two_shirts = record {
  contact = empty_contact;
  shipping_phone = codes "01012345678";
  utm = no_utm;
  idempotency_key = some (codes "k-1");
  coupon_code = some (codes "TEN");
  payment_method = none;
  items = record { product_variant_id = 1; quantity = 2 } ∷ [];
}

abbrev pub shop : Store
shop = record {
  orders = [];
  variants = shirt ∷ [];
  coupons = tenth_off ∷ [];
  zones = cairo ∷ [];
  settings = none;
  outbox = [];
  audit = [];
  paymob_events = [];
  agent_requests = [];
  track_attempts = [];
  draws = 0;
}

abbrev pub monday : World
monday = record {
  now = 1000000;
  has_agent = true;
  sending_enabled = true;
  outbox_up = true;
  audit_up = true;
  post = λ r. answered 200;
  body_bytes = λ e. 100;
  random_uuid = λ n. n;
  new_order_id = 1;
  new_order_number = codes "R-1";
  new_guest_token = codes "token";
  upper = λ t. t;
  lower = λ t. t;
}

abbrev pub tuesday : World
tuesday = record monday { now = 9000000; new_order_id = 2; new_order_number = codes "R-2" }

abbrev pub ordered : Store
ordered = perform tables monday (Call.creates two_shirts none) shop

abbrev pub expired : Store
expired = perform tables tuesday (Call.expires_one 1 9000000) ordered

-- The order that `ordered` holds.
abbrev pub placed : Order
placed =
    new_order tables monday two_shirts none (codes "+201012345678")
      (record {
        product_variant_id = 1;
        quantity = 2;
        unit_price = 200000000;
        total_price = 400000000;
      }
        ∷ [])
      (record { discount = 40000000; coupon_id = some 7; coupon_code = some (codes "TEN") })
      (record { shipping_fee = 50000000; cod_fee = 0; total_amount = 410000000 })
