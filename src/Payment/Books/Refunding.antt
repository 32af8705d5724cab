-- ===== src/Payment/Books/Refunding.antt =====
-- `refundTransaction` of src/payment/paymob.service.ts keeps the books.
use rive_backend.Base.{
  ℕ, ◌≡◌, refl, true, false, ◌||◌, Option, none, some, ◌>>◌, pure, Option-cases, inl, inr,
  bad_request, Bool-cases, arith, subst, sym, ◌&&◌, ◌⊎◌, Result, err, Failure, not_found,
}
use rive_backend.Base.Text.{Text}
use rive_backend.Db.{tables, update_where}
use rive_backend.Db.Keys.{find-holds}
use rive_backend.Schema.{Order}
use rive_backend.Store.{Store, World, EventSource}
use rive_backend.Agent.Events.{Event}
use rive_backend.Agent.Outbox.{enqueue_in_tx}
use rive_backend.Orders.Status.{OrderStatus, same_status, is_refunded}
use rive_backend.Orders.Emit.{has_id, find_order, kick_agent, is_live}
use rive_backend.Orders.Cancel.{with_orders}
use rive_backend.Orders.Frames.{
  Frames, Frames-bind, Frames-if, Frames-pure, enqueue_in_tx-Frames, kick_agent-Frames,
}
use rive_backend.Orders.Ledger.{IsSound, is_given_up, Keeps, Keeps-refl, Keeps-trans, Keeps-frame}
use rive_backend.Orders.Ledger.Paying.{IsMild-by, update-keeps, read-is-written, stays_open}
use rive_backend.Orders.Ledger.Moving.{has_id-id}
use rive_backend.Orders.Ledger.Services.{AlwaysKeeps}
use rive_backend.Payment.Gateway.{Gateway, RefundReply, truthy_or}
use rive_backend.Payment.Refund.{
  refund_cents, refunded, or_text, tell_refunded, finish_refund, refund_found, refund_transaction,
}

module _ (w : World) (g : Gateway) (v c : ℕ) where
  told-Frames :
      (src : EventSource) (a b : Event)
      → Frames (
          enqueue_in_tx tables w src a
          >> enqueue_in_tx tables w EventSource.paymob b
          >> kick_agent tables w)
  told-Frames src a b =
      Frames-bind (enqueue_in_tx tables w src a >> enqueue_in_tx tables w EventSource.paymob b)
        (λ _. kick_agent tables w)
        (Frames-bind (enqueue_in_tx tables w src a)
          (λ _. enqueue_in_tx tables w EventSource.paymob b) (enqueue_in_tx-Frames tables w src a)
          (λ _. enqueue_in_tx-Frames tables w EventSource.paymob b))
        (λ _. kick_agent-Frames tables w)

  pub tell_refunded-Frames :
      (o : Order) (refund_id : Text) (cents : ℕ)
      → Frames (tell_refunded tables w g o refund_id cents)
  unfolding tell_refunded
  tell_refunded-Frames o refund_id cents =
      Frames-if _ _ _ (told-Frames EventSource.backend _ _) (Frames-pure tt)

  open_if_paid :
      (status : OrderStatus)
      → same_status status OrderStatus.paid ≡ true
      → is_given_up status ≡ false
  open_if_paid status h = ground arith

  finish_refund-keeps :
      (o : Order) (transaction_id : Text) (cents : ℕ) (reply : RefundReply) (s : Store)
      → IsSound c s
      → find_order tables w o.id s ≡ some o
      → same_status o.status OrderStatus.paid ≡ true
      → Keeps v c s (finish_refund tables w g o transaction_id cents reply s).1
  unfolding finish_refund
  finish_refund-keeps o transaction_id cents RefundReply.refused s sound read paid =
      Keeps-refl v sound
  finish_refund-keeps o transaction_id cents RefundReply.failed s sound read paid =
      Keeps-refl v sound
  finish_refund-keeps o transaction_id cents (RefundReply.done refund_id) s sound read paid =
      let s' = with_orders s (update_where (has_id o.id) refunded s.orders) in
      let tell = tell_refunded tables w g o (or_text refund_id transaction_id) cents in
      let kept =
        update-keeps w v c o.id (has_id o.id) refunded s (has_id-id w v c o.id)
          (IsMild-by refunded (λ r. (refl, refl, refl, refl)))
          (λ r found.
            stays_open w v c o.id r o
              (read-is-written w v c o.id (has_id o.id) s o r (has_id-id w v c o.id) sound read
                found)
              (open_if_paid o.status paid))
          sound in
      Keeps-trans kept (
        Keeps-frame v
          (Frames-bind tell (λ _. pure cents)
            (tell_refunded-Frames o (or_text refund_id transaction_id) cents)
            (λ _. Frames-pure cents) s')
          kept.sound)

  pub find_order-id :
      (id : ℕ) (s : Store) (o : Order) → find_order tables w id s ≡ some o → o.id ≡ id
  unfolding find_order
  find_order-id id s o read =
      ground (arith, find-holds (λ x. has_id id x && is_live x) s.orders o read)

  -- What a refund comes to: a refusal, or the reply to the request for the order that was read.
  abbrev pub IsRefund : ℕ → Store → Result ℕ × Store → Type 0
  IsRefund id s r =
      ((e : Failure) × (r ≡ (err e, s)))
      ⊎ ((o : Order) × (transaction_id : Text) × (cents : ℕ) × (find_order tables w id s ≡ some o)
          × (same_status o.status OrderStatus.paid ≡ true)
          × (r ≡ finish_refund tables w g o transaction_id cents (g.refund transaction_id cents) s))

  refund_found-IsRefund :
      (id : ℕ) (amount : Option ℕ) (s : Store) (o : Order)
      → find_order tables w id s ≡ some o
      → IsRefund id s (refund_found tables w g o amount s)
  unfolding refund_found
  refund_found-IsRefund id amount s o read =
      elim (Bool-cases
        (same_status o.status OrderStatus.refunded || is_refunded o.payment_status)) [
          | inl e ↦ inl (bad_request "Order has already been refunded", rw e refl)
          | inr e ↦ elim (Bool-cases (same_status o.status OrderStatus.paid)) [
            | inr f ↦ inl (bad_request "Only paid orders can be refunded", rw (e, f) refl)
            | inl f ↦ elim (Option-cases (truthy_or o.paymob_transaction_id none)) [
              | inl h ↦ inl (
                bad_request "Order does not have a valid Paymob transaction ID for refund",
                rw (e, f, h) refl,
              )
              | inr (t, h) ↦
                  inr (o, t, refund_cents amount o.total_amount, read, f, rw (e, f, h) refl)
            ]
          ]
        ]

  pub refund_transaction-IsRefund :
      (id : ℕ) (amount : Option ℕ) (s : Store)
      → IsRefund id s (refund_transaction tables w g id amount s)
  unfolding refund_transaction
  refund_transaction-IsRefund id amount s = elim (Option-cases (find_order tables w id s)) [
    | inl e ↦ inl (not_found "Order not found", rw e refl)
    | inr (o, e) ↦
        subst (IsRefund id s) (rw (e, refund_transaction) refl)
          (refund_found-IsRefund id amount s o e)
  ]

  pub refund_transaction-keeps :
      (id : ℕ) (amount : Option ℕ) → AlwaysKeeps v c (refund_transaction tables w g id amount)
  refund_transaction-keeps id amount s sound = elim (refund_transaction-IsRefund id amount s) [
    | inl (e, r) ↦ rw r (Keeps-refl v sound)
    | inr (o, t, cents, read, paid, r) ↦ rw r (
        finish_refund-keeps o t cents (g.refund t cents) s sound
          (subst (λ k. find_order tables w k s ≡ some o) (sym (find_order-id id s o read)) read)
          paid)
  ]
