-- ===== src/Payment/Calls.antt =====
-- The calls of `PaymobService` that write orders, `reconcilePayments` excepted, and sequences of
-- them and of the calls of `OrdersService`. Every call runs to its end before the next one begins,
-- and each has its own configuration and its own replies of Paymob.
use rive_backend.Base.{ℕ, Option}
use rive_backend.Base.Text.{Text}
use rive_backend.Db.{Prisma, IsPrisma, tables, tables-IsPrisma, on_every_db}
use rive_backend.Store.{Store, World}
use rive_backend.Util.Ownership.{Caller}
use rive_backend.Orders.Calls.{Run}
use rive_backend.Orders.Ledger.{IsSound, Keeps, Keeps-refl, Keeps-trans}
use rive_backend.Orders.Ledger.Calls.{Run-keeps}
use rive_backend.Payment.Gateway.{Gateway, Body}
use rive_backend.Payment.Checkout.{create_checkout_session}
use rive_backend.Payment.Webhook.{handle_webhook}
use rive_backend.Payment.Refund.{refund_transaction}
use rive_backend.Payment.Books.Settling.{handle_webhook-keeps}
use rive_backend.Payment.Books.Opening.{create_checkout_session-keeps}
use rive_backend.Payment.Books.Refunding.{refund_transaction-keeps}

pub data PaymentCall : Type 0 where
  checks_out : ℕ → Caller → PaymentCall
  receives : Body → Option Text → PaymentCall
  refunds : ℕ → Option ℕ → PaymentCall

module _ (db : Prisma) where
  unfoldable pub perform_payment : World → Gateway → PaymentCall → Store → Store
  perform_payment w g (checks_out id caller) s = (create_checkout_session db w g id caller s).1
  perform_payment w g (receives body signature) s = (handle_webhook db w g body signature s).1
  perform_payment w g (refunds id amount) s = (refund_transaction db w g id amount s).1

  pub data ShopRun : Store → Store → Type 0 where
    done : (s : Store) → ShopRun s s
    orders : (s t u : Store) → Run db s t → ShopRun t u → ShopRun s u
    payment :
        (w : World) (g : Gateway) (k : PaymentCall) (s t : Store)
        → ShopRun (perform_payment w g k s) t
        → ShopRun s t

module _ (w : World) (g : Gateway) (v c : ℕ) where
  pub perform_payment-keeps :
      (k : PaymentCall) (s : Store) → IsSound c s → Keeps v c s (perform_payment tables w g k s)
  unfolding perform_payment
  perform_payment-keeps (PaymentCall.checks_out id caller) s sound =
      create_checkout_session-keeps w g v c id caller s sound
  perform_payment-keeps (PaymentCall.receives body signature) s sound =
      handle_webhook-keeps w g v c body signature s sound
  perform_payment-keeps (PaymentCall.refunds id amount) s sound =
      refund_transaction-keeps w g v c id amount s sound

ShopRun_tables-keeps : (v c : ℕ) (s t : Store) → ShopRun tables s t → IsSound c s → Keeps v c s t
ShopRun_tables-keeps v c s t (ShopRun.done _) sound = Keeps-refl v sound
ShopRun_tables-keeps v c s t (ShopRun.orders _ m _ run rest) sound =
    let kept = Run-keeps tables tables-IsPrisma v c s m run sound in
    Keeps-trans kept (ShopRun_tables-keeps v c m t rest kept.sound)
ShopRun_tables-keeps v c s t (ShopRun.payment w g k _ _ rest) sound =
    let one = perform_payment-keeps w g v c k s sound in
    Keeps-trans one (ShopRun_tables-keeps v c (perform_payment tables w g k s) t rest one.sound)

-- Over a database that keeps to its documentation: whatever sequence of calls of the orders
-- service (new orders with fresh keys), of checkouts, of webhooks, genuine, repeated or forged, and
-- of refunds runs from sound books, and whatever Paymob replies and the calls return or throw, the
-- books are sound at the end (keys unique, no order soft-deleted, the count of each coupon the
-- number of its uses by orders that were not given up), and the pieces of each variant, in stock
-- and held by such orders, are as many as at the start.
pub ShopRun-keeps :
    (db : Prisma)
    → IsPrisma db
    → (v c : ℕ) (s t : Store) → ShopRun db s t
    → IsSound c s
    → Keeps v c s t
ShopRun-keeps =
    on_every_db (λ db. (v c : ℕ) (s t : Store) → ShopRun db s t → IsSound c s → Keeps v c s t)
      ShopRun_tables-keeps
