-- ===== src/Payment/Gateway.antt =====
-- What src/payment/paymob.service.ts exchanges with Paymob: the notices of its webhook, and the
-- replies of its interface, which are fields of a parameter.
use rive_backend.Base.{ℕ, Bool, true, false, Option, none, some, List, [], ◌∷◌, ◌++◌}
use rive_backend.Base.Text.{Text}
use rive_backend.Schema.{Order}

-- A webhook's transaction. A flag is `some b` where `String(flag)` is that of the Boolean `b`; an
-- optional text is `String(value)` where there is a value; a reference is a key where it is truthy.
pub record Notice : Type 0 where
  pub amount_cents : Option Text
  pub made_at : Option Text
  pub currency : Option Text
  pub error_occured : Option Bool
  pub has_parent_transaction : Option Bool
  pub id : Option Text
  pub integration_id : Option Text
  pub is_3d_secure : Option Bool
  pub is_auth : Option Bool
  pub is_capture : Option Bool
  pub is_refunded : Option Bool
  pub is_standalone_payment : Option Bool
  pub is_voided : Option Bool
  -- `obj.order.id` of an object, or `obj.order`
  pub order : Option Text
  pub owner : Option Text
  pub pending : Option Bool
  pub pan : Option Text
  pub sub_type : Option Text
  pub source_type : Option Text
  pub success : Option Bool
  pub special_reference : Option ℕ
  pub order_merchant_order_id : Option ℕ
  pub merchant_order_id : Option ℕ
  -- `payload.hmac || payload.obj?.hmac`, and `payload.type`
  pub hmac : Option Text
  pub type : Option Text
  pub failure_code : Text
  pub failure_text : Option Text

-- The body of a webhook: missing, no JSON, or a notice.
pub data Body : Type 0 where
  missing unreadable : Body
  notice : Notice → Body

-- `POST /v1/intention/`: not ok, an exception, or the secret and the key of the intention.
pub data IntentionReply : Type 0 where
  refused failed : IntentionReply
  created : Option Text → Option Text → IntentionReply

-- `POST /api/acceptance/void_refund/refund`, with the key of the refund
pub data RefundReply : Type 0 where
  refused failed : RefundReply
  done : Option Text → RefundReply

-- `GET /api/acceptance/transactions/<id>`
pub record Transaction : Type 0 where
  pub success : Option Bool
  pub pending : Option Bool
  pub is_voided : Option Bool
  pub is_refunded : Option Bool
  -- `Number(amount_cents)`, if it is an integer
  pub amount : Option ℕ
  pub amount_cents : Option Text
  pub currency : Option Text
  pub special_reference : Option Text
  pub merchant_order_id : Option Text
  -- `order.merchant_order_id` of an object, or `order`
  pub order : Text

pub data TransactionReply : Type 0 where
  unreachable refused unreadable : TransactionReply
  answered : Transaction → TransactionReply

-- The configuration, the hash of Node's `crypto`, JavaScript's numbers, and Paymob.
pub record Gateway : Type 0 where
  pub api_key : Text
  pub hmac_secret : Text
  pub public_key : Text
  -- `createHmac("sha512", secret).update(text).digest("hex")`
  pub hmac_sha512 : Text → Text → Text
  -- `Math.round(Number(value))`, where that number is finite
  pub rounded : Option Text → Option ℕ
  -- the text of an order's key
  pub id_text : ℕ → Text
  pub intention : Order → IntentionReply
  pub refund : Text → ℕ → RefundReply
  pub transaction : Text → TransactionReply

-- `String(value ?? "")`
abbrev pub or_empty : Option Text → Text
or_empty none = []
or_empty (some t) = t

-- `a || b` of optional texts
abbrev pub truthy_or : Option Text → Option Text → Option Text
truthy_or none b = b
truthy_or (some []) b = b
truthy_or (some (c ∷ s)) b = some (c ∷ s)

-- `"true"` or `"false"`
abbrev pub flag_text : Option Bool → Text
flag_text (some true) = b't' ∷ b'r' ∷ b'u' ∷ b'e' ∷ []
flag_text (some false) = b'f' ∷ b'a' ∷ b'l' ∷ b's' ∷ b'e' ∷ []
flag_text none = b'f' ∷ b'a' ∷ b'l' ∷ b's' ∷ b'e' ∷ []

abbrev pub is_true : Option Bool → Bool
is_true (some true) = true
is_true (some false) = false
is_true none = false

abbrev pub is_false : Option Bool → Bool
is_false (some false) = true
is_false (some true) = false
is_false none = false

abbrev join : List Text → Text
join [] = []
join (t ∷ ts) = t ++ join ts

-- The twenty values that are signed, in their order.
unfoldable pub signed_text : Notice → Text
signed_text n = join (
    or_empty n.amount_cents
    ∷ or_empty n.made_at
    ∷ or_empty n.currency
    ∷ flag_text n.error_occured
    ∷ flag_text n.has_parent_transaction
    ∷ or_empty n.id
    ∷ or_empty n.integration_id
    ∷ flag_text n.is_3d_secure
    ∷ flag_text n.is_auth
    ∷ flag_text n.is_capture
    ∷ flag_text n.is_refunded
    ∷ flag_text n.is_standalone_payment
    ∷ flag_text n.is_voided
    ∷ or_empty n.order
    ∷ or_empty n.owner
    ∷ flag_text n.pending
    ∷ or_empty n.pan
    ∷ or_empty n.sub_type
    ∷ or_empty n.source_type
    ∷ flag_text n.success
    ∷ [])

-- `calculateHmac`
unfoldable pub calculate_hmac : Gateway → Notice → Text
unfolding signed_text
calculate_hmac g n = g.hmac_sha512 g.hmac_secret (signed_text n)
