-- ===== src/Agent/Mapper.antt =====
-- src/agent-events/agent-events.mapper.ts: the shapes of the events that the agent receives.
use Prim.Native.String.{String}
use rive_backend.Base.{ℕ, ◌+◌, ◌*◌, ◌/◌, Option, none, some, List, map}
use rive_backend.Base.Text.{Text}
use rive_backend.Orders.Status.{OrderStatus, PaymentMethod}
use rive_backend.Schema.{Order, OrderItem, Variant}

pub data ContractStatus : Type 0 where
  awaiting_payment awaiting_confirmation confirmed ready_to_ship : ContractStatus
  paid shipped delivered cancelled refunded : ContractStatus

pub data ContractPaymentMethod : Type 0 where
  card cod : ContractPaymentMethod

-- A hundredth of a pound, from millionths; `toDecimalPlaces(0)` rounds a half up.
unfoldable pub to_piasters : ℕ → ℕ
to_piasters value = (value * 100 + 500000) / 1000000

unfoldable pub to_contract_status : OrderStatus → PaymentMethod → ContractStatus
to_contract_status OrderStatus.pending PaymentMethod.cod = ContractStatus.awaiting_confirmation
to_contract_status OrderStatus.pending PaymentMethod.online = ContractStatus.awaiting_payment
to_contract_status OrderStatus.confirmed m = ContractStatus.confirmed
to_contract_status OrderStatus.processing m = ContractStatus.ready_to_ship
to_contract_status OrderStatus.paid m = ContractStatus.paid
to_contract_status OrderStatus.shipped m = ContractStatus.shipped
to_contract_status OrderStatus.delivered m = ContractStatus.delivered
to_contract_status OrderStatus.refunded m = ContractStatus.refunded
to_contract_status OrderStatus.cancelled m = ContractStatus.cancelled
to_contract_status OrderStatus.expired m = ContractStatus.cancelled

unfoldable pub to_contract_payment_method : PaymentMethod → ContractPaymentMethod
to_contract_payment_method PaymentMethod.cod = ContractPaymentMethod.cod
to_contract_payment_method PaymentMethod.online = ContractPaymentMethod.card

pub record OrderRef : Type 0 where
  pub order_id : ℕ
  pub order_number : Text
  pub status : ContractStatus
  pub backend_status : OrderStatus
  pub customer_id : Option ℕ
  pub phone : Option Text
  pub channel : String
  pub payment_method : ContractPaymentMethod
  pub total_piasters : ℕ

unfoldable pub to_order_ref : Order → OrderRef
unfolding to_contract_status to_contract_payment_method to_piasters
to_order_ref o = record {
  order_id = o.id;
  order_number = o.order_number;
  status = to_contract_status o.status o.payment_method;
  backend_status = o.status;
  customer_id = o.user_id;
  phone = o.shipping_phone;
  channel = "website";
  payment_method = to_contract_payment_method o.payment_method;
  total_piasters = to_piasters o.total_amount;
}

-- `size` and `color` of a line, which the variant's row passes on unread, are left out.
pub record OrderLine : Type 0 where
  pub sku : Option Text
  pub product_id : Option ℕ
  pub variant_id : Option ℕ
  pub name : Option Text
  pub qty : ℕ
  pub unit_price_piasters : ℕ
  pub line_total_piasters : ℕ

-- One line, with the item's variant as the query joined it.
unfoldable pub to_order_line : OrderItem × Option Variant → OrderLine
unfolding to_piasters
to_order_line (i, none) = record {
  sku = none;
  product_id = none;
  variant_id = none;
  name = none;
  qty = i.quantity;
  unit_price_piasters = to_piasters i.unit_price;
  line_total_piasters = to_piasters i.total_price;
}
to_order_line (i, some v) = record {
  sku = some v.sku;
  product_id = some v.product.id;
  variant_id = some v.id;
  name = some v.product.name;
  qty = i.quantity;
  unit_price_piasters = to_piasters i.unit_price;
  line_total_piasters = to_piasters i.total_price;
}

unfoldable pub to_order_lines : List (OrderItem × Option Variant) → List OrderLine
unfolding to_order_line
to_order_lines items = map to_order_line items

pub record Address : Type 0 where
  pub governorate : Option Text
  pub city : Option Text
  pub line1 : Option Text
  pub country : Option Text
  pub zip : Option Text

unfoldable pub to_address : Order → Address
to_address o = record {
  governorate = o.contact.shipping_city;
  city = o.contact.shipping_city;
  line1 = o.contact.shipping_address;
  country = o.contact.shipping_country;
  zip = o.contact.shipping_zip_code;
}

-- A signed number of pieces.
pub data Delta : Type 0 where
  up down : ℕ → Delta

pub data StockReason : Type 0 where
  sale cancel restock manual return : StockReason

pub record StockChanged : Type 0 where
  pub sku : Text
  pub product_id : ℕ
  pub variant_id : ℕ
  pub on_hand : ℕ
  pub reserved : ℕ
  pub available : ℕ
  pub delta : Delta
  pub reason : StockReason
  pub order_number : Option Text

unfoldable pub to_stock_changed : Variant → Delta → StockReason → Option Text → StockChanged
to_stock_changed v delta reason number = record {
  sku = v.sku;
  product_id = v.product.id;
  variant_id = v.id;
  on_hand = v.stock;
  reserved = 0;
  available = v.stock;
  delta = delta;
  reason = reason;
  order_number = number;
}
