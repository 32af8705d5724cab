-- ===== src/Store.antt =====
-- The state that the services share: the tables of the database, and the in-process map of
-- `OrdersService`. `World` holds what a request finds outside: the clock, the configuration,
-- random values, the tables of Unicode case mapping, and whether the best-effort writes succeed.
use Prim.Native.String.{String}
use rive_backend.Base.{ℕ, Bool, Option, List, Action, ◌⊎◌}
use rive_backend.Base.Text.{Text}
use rive_backend.Orders.Status.{OrderStatus, PaymentStatus}
use rive_backend.Schema.{Order, Variant, Coupon, ShippingZone, SiteSettings}
use rive_backend.Agent.Events.{Event}

pub data OutboxStatus : Type 0 where
  pending sending delivered failed : OutboxStatus

pub data EventSource : Type 0 where
  backend admin paymob carrier : EventSource

-- Why a delivery failed: the HTTP status, an exception of the call (its text), or the size.
pub data DeliveryError : Type 0 where
  http : ℕ → DeliveryError
  thrown : Text → DeliveryError
  too_large : DeliveryError

pub record OutboxRow : Type 0 where
  pub id : ℕ
  pub source : EventSource
  pub payload : Event
  pub status : OutboxStatus
  pub attempts : ℕ
  pub next_try_at : ℕ
  pub last_error : Option DeliveryError
  pub delivered_at : Option ℕ
  pub created_at : ℕ

pub data AuditChanges : Type 0 where
  status_change : OrderStatus → OrderStatus → AuditChanges
  payment_change : PaymentStatus → PaymentStatus → AuditChanges
  shipping_update : AuditChanges
  deleted : Text → OrderStatus → Bool → AuditChanges
  track_failed : Text → AuditChanges
  webhook_ignored : Text → AuditChanges
  -- of a reconciliation, only the transaction is kept
  reconciled : Option Text → AuditChanges

pub record AuditEntry : Type 0 where
  pub user_id : Option ℕ
  pub action : String
  pub entity : Text ⊎ ℕ
  pub changes : AuditChanges
  pub created_at : ℕ

pub record ProcessedPaymobEvent : Type 0 where
  pub paymob_transaction_id : Text
  pub event_type : Text
  pub order_id : Option ℕ

pub record AgentRequest : Type 0 where
  pub created_at : ℕ

pub record Store : Type 0 where
  pub orders : List Order
  pub variants : List Variant
  pub coupons : List Coupon
  pub zones : List ShippingZone
  pub settings : Option SiteSettings
  pub outbox : List OutboxRow
  pub audit : List AuditEntry
  pub paymob_events : List ProcessedPaymobEvent
  pub agent_requests : List AgentRequest
  -- `orderTrackRateMap`
  pub track_attempts : List (Text × List ℕ)
  -- how many values of `randomUUID` have been drawn
  pub draws : ℕ

-- What a POST to the agent comes back with: a status, or the exception's text.
pub data Reply : Type 0 where
  answered : ℕ → Reply
  raised : Text → Reply

pub record World : Type 0 where
  pub now : ℕ
  -- the optional `AgentEventsService` is injected, and `isSendingEnabled()`
  pub has_agent : Bool
  pub sending_enabled : Bool
  -- the insert into AgentOutbox, and that into AuditLog, succeeds
  pub outbox_up : Bool
  pub audit_up : Bool
  pub post : OutboxRow → Reply
  -- `Buffer.byteLength(JSON.stringify(payload))`
  pub body_bytes : Event → ℕ
  pub random_uuid : ℕ → ℕ
  -- the new order's `cuid`, `generateOrderNumber()` and `generateGuestAccessToken()`
  pub new_order_id : ℕ
  pub new_order_number : Text
  pub new_guest_token : Text
  -- `toUpperCase` and `toLowerCase`
  pub upper : Text → Text
  pub lower : Text → Text

abbrev pub M : Type 0 → Type 0
M A = Action Store A
