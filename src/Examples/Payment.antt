-- ===== src/Examples/Payment.antt =====
-- What the theorems on payments say of the shop: its order is paid for on Monday, and refunded.
use rive_backend.Base.{
  ◌≡◌, refl, true, false, none, some, List, [], ◌∷◌, err, bad_request, arith, map,
}
use Prim.Native.String.{String}
use rive_backend.Base.Text.{codes}
use rive_backend.Db.{tables, tables-IsPrisma}
use rive_backend.Schema.{Order}
use rive_backend.Store.{Store}
use rive_backend.Orders.Status.{OrderStatus}
use rive_backend.Orders.Calls.{Call, Run, perform}
use rive_backend.Orders.Create.{create}
use rive_backend.Orders.Frames.{SameBusiness}
use rive_backend.Orders.Ledger.{Keeps, Ensures}
use rive_backend.Payment.Gateway.{
  Gateway, Notice, Body, IntentionReply, RefundReply, TransactionReply, calculate_hmac,
}
use rive_backend.Payment.Webhook.{handle_webhook, paid, already_processed}
use rive_backend.Payment.Refund.{refund_transaction}
use rive_backend.Payment.Checkout.{create_checkout_session}
use rive_backend.Payment.Calls.{PaymentCall, ShopRun, perform_payment, ShopRun-keeps}
use rive_backend.Payment.Guards.{handle_webhook-forged}
use rive_backend.Payment.RefundOnce.{refund_transaction-once}
use rive_backend.Payment.WebhookOnce.{handle_webhook-once}
use rive_backend.Examples.Orders.{shop-IsSound}
use rive_backend.Base.Text.{is_blank}
use rive_backend.Orders.Linked.{Linked}
use rive_backend.Payment.Linked.Runs.{ShopRun-Linked}
use rive_backend.Payment.Idle.{IsIdle, ShopRun-IsIdle}
use rive_backend.Payment.Reconcile.{reconcile_payments}
use rive_backend.Examples.Shop.{two_shirts, shop, monday, tuesday, ordered}

-- A gateway that signs everything with one text, and grants every request.
abbrev gateway : Gateway
gateway = record {
  api_key = codes "key";
  hmac_secret = codes "secret";
  public_key = codes "public";
  hmac_sha512 = λ key text. codes "signed";
  rounded = λ t. some 41000;
  id_text = λ n. codes "order";
  intention = λ o. IntentionReply.created (some (codes "cs-1")) (some (codes "pi-1"));
  refund = λ t n. RefundReply.done (some (codes "re-1"));
  transaction = λ t. TransactionReply.unreachable;
}

abbrev payment : Notice
payment = record {
  amount_cents = some (codes "41000");
  made_at = none;
  currency = some (codes "EGP");
  error_occured = some false;
  has_parent_transaction = some false;
  id = some (codes "tx-1");
  integration_id = none;
  is_3d_secure = none;
  is_auth = none;
  is_capture = none;
  is_refunded = some false;
  is_standalone_payment = none;
  is_voided = some false;
  order = none;
  owner = none;
  pending = some false;
  pan = none;
  sub_type = none;
  source_type = none;
  success = some true;
  special_reference = some 1;
  order_merchant_order_id = none;
  merchant_order_id = none;
  hmac = none;
  type = none;
  failure_code = codes "declined";
  failure_text = none;
}

abbrev paid_for : Store
paid_for =
    perform_payment tables monday gateway
      (PaymentCall.receives (Body.notice payment) (some (codes "signed"))) ordered

abbrev refunded_shop : Store
refunded_shop = perform_payment tables monday gateway (PaymentCall.refunds 1 none) paid_for

statuses_of : Store → List OrderStatus
statuses_of s = map (λ (o : Order). o.status) s.orders

paid_status : statuses_of paid_for ≡ OrderStatus.paid ∷ []
unfolding statuses_of perform_payment perform create handle_webhook
paid_status = refl

refunded_status : statuses_of refunded_shop ≡ OrderStatus.refunded ∷ []
unfolding statuses_of perform_payment perform create handle_webhook refund_transaction
refunded_status = refl

handle_webhook-forged_example :
    (m : String) × (handle_webhook tables monday gateway
        (Body.notice payment)
        (some (codes "forged"))
        ordered
      ≡ (err (bad_request m), ordered))
unfolding calculate_hmac
handle_webhook-forged_example =
    handle_webhook-forged tables monday gateway payment (some (codes "forged")) ordered
      (λ e. ground arith)

handle_webhook-once_example :
    SameBusiness paid_for
      (handle_webhook tables tuesday gateway
        (Body.notice payment)
        (some (codes "signed"))
        paid_for).1
    × Ensures
        (λ x _. x ≡ already_processed (codes "tx-1"))
        (handle_webhook tables tuesday gateway
          (Body.notice payment)
          (some (codes "signed"))
          paid_for)
unfolding perform_payment perform create handle_webhook
handle_webhook-once_example =
    handle_webhook-once tables tables-IsPrisma monday tuesday gateway gateway payment payment
      (some (codes "signed")) (some (codes "signed")) ordered paid_for (paid 1 OrderStatus.paid)
      refl refl refl

refund_transaction-once_example :
    refund_transaction tables tuesday gateway 1 (some 100) refunded_shop
    ≡ (err (bad_request "Order has already been refunded"), refunded_shop)
unfolding perform_payment perform create handle_webhook refund_transaction
refund_transaction-once_example =
    refund_transaction-once tables tables-IsPrisma monday tuesday gateway gateway 1 none (some 100)
      paid_for refunded_shop 41000 (refl, tt) refl refl

-- The shirts are ordered, paid for and refunded.
abbrev shop_run : ShopRun tables shop refunded_shop
shop_run =
    ShopRun.orders shop ordered refunded_shop
      (Run.call monday (Call.creates two_shirts none) shop ordered refl (Run.done ordered))
      (ShopRun.payment monday gateway
        (PaymentCall.receives (Body.notice payment) (some (codes "signed"))) ordered refunded_shop
        (ShopRun.payment monday gateway (PaymentCall.refunds 1 none) paid_for refunded_shop
          (ShopRun.done refunded_shop)))

ShopRun-keeps_example : Keeps 1 7 shop refunded_shop
unfolding perform_payment perform create handle_webhook refund_transaction create_checkout_session
ShopRun-keeps_example =
    ShopRun-keeps tables tables-IsPrisma 1 7 shop refunded_shop shop_run shop-IsSound

ShopRun-Linked_example : Linked refunded_shop.orders
unfolding perform_payment perform create handle_webhook refund_transaction
ShopRun-Linked_example =
    ShopRun-Linked tables tables-IsPrisma 7 shop refunded_shop shop_run shop-IsSound refl

ShopRun-IsIdle_example :
    IsIdle refunded_shop (reconcile_payments tables tuesday gateway 2 false refunded_shop)
unfolding perform_payment perform create handle_webhook refund_transaction is_blank
ShopRun-IsIdle_example =
    ShopRun-IsIdle tables tables-IsPrisma 7 shop refunded_shop shop_run shop-IsSound refl tuesday
      gateway 2 refl
