-- ===== src/Schema.antt =====
-- The rows of the database: the models of prisma/schema.prisma that the order, coupon, payment and
-- agent-event services read and write.
-- Keys are natural numbers (the code only compares them); texts that the code walks are lists of
-- code units; a date is a number of milliseconds. An amount of money (`Decimal`) is a number of
-- millionths of a pound: prices, fees and percentages have two decimals, so every sum, product
-- and percentage that the code forms from them is exact in that unit.
use rive_backend.Base.{ℕ, Option, List, Bool}
use rive_backend.Base.Text.{Text}
use rive_backend.Orders.Status.{OrderStatus, PaymentStatus, PaymentMethod}

pub data ProductStatus : Type 0 where
  draft active published archived : ProductStatus

pub data CouponType : Type 0 where
  percentage fixed : CouponType

pub record Product : Type 0 where
  pub id : ℕ
  pub name : Text
  pub status : ProductStatus
  pub deleted_at : Option ℕ

pub data Size : Type 0 where
  size_xs size_s size_m size_l size_xl : Size

pub record Variant : Type 0 where
  pub id : ℕ
  pub product : Product
  pub size : Option Size
  pub sku : Text
  pub price : ℕ
  pub stock : ℕ
  pub is_available : Bool

pub record Coupon : Type 0 where
  pub id : ℕ
  pub code : Text
  pub type : CouponType
  pub value : ℕ
  pub expires_at : Option ℕ
  pub usage_limit : Option ℕ
  pub usage_count : ℕ
  pub usage_per_customer : Option ℕ
  pub min_order_amount : Option ℕ
  pub is_active : Bool

pub record OrderItem : Type 0 where
  pub product_variant_id : ℕ
  pub quantity : ℕ
  pub unit_price : ℕ
  pub total_price : ℕ

-- The contact fields, which no operation reads but to copy them.
pub record Contact : Type 0 where
  pub customer_name : Option Text
  pub customer_email : Option Text
  pub shipping_address : Option Text
  pub shipping_city : Option Text
  pub shipping_country : Option Text
  pub shipping_zip_code : Option Text
  pub notes : Option Text

pub record Utm : Type 0 where
  pub source : Option Text
  pub medium : Option Text
  pub campaign : Option Text
  pub content : Option Text

pub record Tracking : Type 0 where
  pub carrier : Option Text
  pub tracking_number : Option Text
  pub tracking_url : Option Text

pub record Order : Type 0 where
  pub id : ℕ
  pub order_number : Text
  pub idempotency_key : Option Text
  pub guest_access_token : Option Text
  pub user_id : Option ℕ
  pub status : OrderStatus
  pub payment_status : PaymentStatus
  pub payment_method : PaymentMethod
  pub cod_fee : ℕ
  pub subtotal : ℕ
  pub discount : ℕ
  pub shipping_fee : ℕ
  pub total_amount : ℕ
  pub contact : Contact
  pub shipping_phone : Option Text
  pub utm : Utm
  pub tracking : Tracking
  pub reservation_expires_at : Option ℕ
  pub payment_session_id : Option Text
  pub paymob_intention_id : Option Text
  pub paymob_transaction_id : Option Text
  pub coupon_id : Option ℕ
  pub coupon_code : Option Text
  pub updated_by_id : Option ℕ
  pub deleted_at : Option ℕ
  pub created_at : ℕ
  pub items : List OrderItem

pub record ShippingZone : Type 0 where
  pub id : ℕ
  pub city_label : Text
  pub price : ℕ
  pub is_active : Bool

pub record SiteSettings : Type 0 where
  pub minimum_order_amount : ℕ
  pub free_shipping_threshold : Option ℕ
  pub cod_enabled : Bool
  pub cod_fee : ℕ
  pub cod_max_amount : Option ℕ
