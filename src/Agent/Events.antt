-- ===== src/Agent/Events.antt =====
-- The events that the order and payment services put into the outbox, with the payloads that
-- src/orders/orders.service.ts and src/payment/paymob.service.ts build.
use rive_backend.Base.{ℕ, Option, List, Bool}
use rive_backend.Base.Text.{Text}
use rive_backend.Orders.Status.{OrderStatus}
use rive_backend.Schema.{Utm}
use rive_backend.Agent.Mapper.{ContractStatus, OrderRef, OrderLine, Address, StockChanged}

pub data Actor : Type 0 where
  customer admin system : Actor

-- The `reason` that a caller passes, and the `reason_code` of a cancellation.
pub data Reason : Type 0 where
  refund payment_reconciliation reservation_expired : Reason
  cancelled_by : Actor → Reason

pub data Provider : Type 0 where
  cod paymob : Provider

pub record OrderCreated : Type 0 where
  pub order : OrderRef
  pub lines : List OrderLine
  pub address : Address
  pub customer_name : Option Text
  pub subtotal_piasters : ℕ
  pub discount_piasters : ℕ
  pub shipping_piasters : ℕ
  pub cod_fee_piasters : ℕ
  pub coupon_code : Option Text
  pub utm : Option Utm
  pub customer_note : Option Text

pub record StatusChanged : Type 0 where
  pub order : OrderRef
  pub old : ContractStatus
  pub new : ContractStatus
  pub backend_from : OrderStatus
  pub backend_to : OrderStatus
  pub actor : Actor
  pub reason : Option Reason

pub record Cancelled : Type 0 where
  pub order : OrderRef
  pub reason_code : Reason
  pub actor : Actor
  pub was_paid : Bool

pub record Succeeded : Type 0 where
  pub order : OrderRef
  -- the transaction, or none for the key `cod_<order>`
  pub provider_txn_id : Option Text
  pub provider : Provider
  pub amount_piasters : ℕ
  pub paid_at : ℕ
  pub collected_by : Option ℕ

pub record Failed : Type 0 where
  pub order : OrderRef
  pub provider_txn_id : Text
  pub failure_code : Text
  pub failure_text : Option Text

pub record Refunded : Type 0 where
  pub order : OrderRef
  pub refund_id : Text
  pub amount_piasters : ℕ
  pub partial : Bool

pub data Event : Type 0 where
  order_created : OrderCreated → Event
  order_status_changed : StatusChanged → Event
  order_cancelled : Cancelled → Event
  stock_changed : StockChanged → Event
  payment_succeeded : Succeeded → Event
  payment_failed : Failed → Event
  payment_refunded : Refunded → Event
