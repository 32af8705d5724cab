-- ===== src/Payment/RefundOnce.antt =====
-- An order is refunded at most once (`refundTransaction` of src/payment/paymob.service.ts).
use rive_backend.Base.{
  ℕ, ◌≡◌, refl, true, false, Option, some, any, arith, ok, err, bad_request, ◌>>◌, pure, inl, inr,
  subst, ◌∙◌, sym,
}
use rive_backend.Base.Text.{Text}
use rive_backend.Db.{Prisma, IsPrisma, tables, on_every_db, update_where}
use rive_backend.Db.Keys.{IsUnique, find-update, find-and_not, any-update}
use rive_backend.Schema.{Order}
use rive_backend.Store.{Store, World}
use rive_backend.Orders.Status.{OrderStatus, same_status}
use rive_backend.Orders.Emit.{has_id, find_order}
use rive_backend.Orders.Cancel.{with_orders}
use rive_backend.Orders.Frames.{SameBusiness, Frames-bind, Frames-pure}
use rive_backend.Orders.Ledger.{is_deleted, Ensures, Ensures-always, Ensures-map}
use rive_backend.Payment.Gateway.{Gateway, RefundReply}
use rive_backend.Payment.Refund.{
  refunded, or_text, tell_refunded, finish_refund, refund_found, refund_transaction,
}
use rive_backend.Payment.Books.Refunding.{
  tell_refunded-Frames, refund_transaction-IsRefund, find_order-id,
}

-- The order is found, and it is refunded.
abbrev IsRefunded : World → ℕ → ℕ → Store → Type 0
IsRefunded w id cents t =
    (o : Order) × (find_order tables w id t ≡ some o)
    × (same_status o.status OrderStatus.refunded ≡ true)

module _ (w : World) (g : Gateway) where
  find_order-refunded :
      (id : ℕ) (s : Store) (o : Order)
      → IsUnique (λ (o : Order). o.id) s.orders
      → any is_deleted s.orders ≡ false
      → find_order tables w id s ≡ some o
      → find_order tables w id (with_orders s (update_where (has_id id) refunded s.orders))
        ≡ some (refunded o)
  unfolding find_order
  find_order-refunded id s o unique live read =
      let gone = any-update (has_id id) is_deleted refunded s.orders (λ r. refl) ∙ live in
      find-and_not (has_id id) is_deleted (update_where (has_id id) refunded s.orders) gone
      ∙ find-update (λ (o : Order). o.id) (has_id id) refunded id s.orders o (λ r h. ground arith)
          (λ r. refl) unique (sym (find-and_not (has_id id) is_deleted s.orders live) ∙ read)

  finish_refund-IsRefunded :
      (o : Order) (transaction_id : Text) (cents : ℕ) (reply : RefundReply) (s : Store)
      → IsUnique (λ (o : Order). o.id) s.orders
      → any is_deleted s.orders ≡ false
      → find_order tables w o.id s ≡ some o
      → Ensures (IsRefunded w o.id) (finish_refund tables w g o transaction_id cents reply s)
  unfolding finish_refund find_order
  finish_refund-IsRefunded o transaction_id cents RefundReply.refused s unique live read = tt
  finish_refund-IsRefunded o transaction_id cents RefundReply.failed s unique live read = tt
  finish_refund-IsRefunded o transaction_id cents (RefundReply.done refund_id) s unique live read =
      let s' = with_orders s (update_where (has_id o.id) refunded s.orders) in
      let tell = tell_refunded tables w g o (or_text refund_id transaction_id) cents in
      Ensures-map (λ _ t. SameBusiness s' t) (IsRefunded w o.id) ((tell >> pure cents) s')
        (Ensures-always (SameBusiness s') ((tell >> pure cents) s') (
          Frames-bind tell (λ _. pure cents)
            (tell_refunded-Frames w g 0 0 o (or_text refund_id transaction_id) cents)
            (λ _. Frames-pure cents) s'))
        (λ _ t same.
          (refunded o, rw same.orders (find_order-refunded o.id s o unique live read), refl))

  refund_transaction-IsRefunded :
      (id : ℕ) (amount : Option ℕ) (s : Store)
      → IsUnique (λ (o : Order). o.id) s.orders
      → any is_deleted s.orders ≡ false
      → Ensures (IsRefunded w id) (refund_transaction tables w g id amount s)
  refund_transaction-IsRefunded id amount s unique live =
      elim (refund_transaction-IsRefund w g 0 0 id amount s) [
        | inl (e, r) ↦ rw r tt
        | inr (o, t, cents, read, paid, r) ↦
            let same = find_order-id w g 0 0 id s o read in
            rw r (
              subst
                (λ k.
                  Ensures (IsRefunded w k)
                    (finish_refund tables w g o t cents (g.refund t cents) s))
                same
                (finish_refund-IsRefunded o t cents (g.refund t cents) s unique live
                  (subst (λ k. find_order tables w k s ≡ some o) (sym same) read)))
      ]

  refund_transaction-refused :
      (id : ℕ) (amount : Option ℕ) (cents : ℕ) (t : Store)
      → IsRefunded w id cents t
      → refund_transaction tables w g id amount t
        ≡ (err (bad_request "Order has already been refunded"), t)
  unfolding refund_transaction refund_found
  refund_transaction-refused id amount cents t (o, read, gone) = rw (read, gone) refl

abbrev RefundsOnce : Prisma → Type 0
RefundsOnce db =
    (w w' : World) (g g' : Gateway) (id : ℕ) (amount amount' : Option ℕ) (s t : Store) (cents : ℕ)
    → IsUnique (λ (o : Order). o.id) s.orders
    → any is_deleted s.orders ≡ false
    → refund_transaction db w g id amount s ≡ (ok cents, t)
    → refund_transaction db w' g' id amount' t
      ≡ (err (bad_request "Order has already been refunded"), t)

tables-RefundsOnce : RefundsOnce tables
unfolding find_order
tables-RefundsOnce w w' g g' id amount amount' s t cents unique live done =
    refund_transaction-refused w' g' id amount' cents t (
      subst (Ensures (IsRefunded w id)) done
        (refund_transaction-IsRefunded w g id amount s unique live))

-- An order is refunded at most once: where the keys of orders are unique and no order is
-- soft-deleted, after a refund that returned, every refund of the same order, of whatever amount,
-- is refused as a repetition and changes nothing.
pub refund_transaction-once :
    (db : Prisma)
    → IsPrisma db
    → (w w' : World) (g g' : Gateway) (id : ℕ) (amount amount' : Option ℕ) (s t : Store) (cents : ℕ)
    → IsUnique (λ (o : Order). o.id) s.orders
    → any is_deleted s.orders ≡ false
    → refund_transaction db w g id amount s ≡ (ok cents, t)
    → refund_transaction db w' g' id amount' t
      ≡ (err (bad_request "Order has already been refunded"), t)
refund_transaction-once = on_every_db RefundsOnce tables-RefundsOnce
