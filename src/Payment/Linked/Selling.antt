-- ===== src/Payment/Linked/Selling.antt =====
-- Checkouts and refunds keep payments linked to orders that were paid for.
use rive_backend.Base.{
  ℕ, ◌≡◌, true, not, ◌&&◌, Option, none, some, [], ◌∷◌, ◌==◌, arith, ltb, keep, length,
  if◌then◌else◌, ◌>>=◌, ◌>>◌, gets, pure, throw, throw_if, or_throw, bad_request, not_found,
  forbidden, Option-cases, inl, inr,
}
use rive_backend.Base.Text.{Text}
use rive_backend.Db.{tables, update_where}
use rive_backend.Schema.{Order}
use rive_backend.Store.{World}
use rive_backend.Util.Ownership.{Caller, is_admin, is_order_owned_by_actor}
use rive_backend.Orders.Status.{is_cod}
use rive_backend.Orders.Emit.{has_id, find_order}
use rive_backend.Orders.Cancel.{with_orders, expire_order}
use rive_backend.Orders.Create.{is_nil}
use rive_backend.Orders.Frames.{Frames-bind, Frames-pure}
use rive_backend.Orders.Preserve.{
  Preserves, Preserves-bind, Preserves-frame, Preserves-unless, Preserves-either,
}
use rive_backend.Orders.Linked.{Linked, is_well_linked, all-update}
use rive_backend.Orders.Linked.Steps.{read-Linked}
use rive_backend.Orders.Linked.Services.{expire_order-Linked}
use rive_backend.Payment.Gateway.{Gateway, IntentionReply, RefundReply, truthy_or}
use rive_backend.Payment.Refund.{
  refunded, or_text, tell_refunded, finish_refund, refund_transaction,
}
use rive_backend.Payment.Checkout.{
  awaits_payment, session_of, is_open_checkout, with_session, session_clashes, persisted_session,
  save_session, open_session, reuse_or_open, checkout_found, create_checkout_session,
}
use rive_backend.Payment.Books.Refunding.{tell_refunded-Frames, refund_transaction-IsRefund}
use rive_backend.Payment.Books.Opening.{persisted_session-Frames}

module _ (w : World) (g : Gateway) where
  refunded-Linked : (r : Order) → is_well_linked r ≡ true → is_well_linked (refunded r) ≡ true
  refunded-Linked r h = ground arith

  finish_refund-Linked :
      (o : Order) (transaction_id : Text) (cents : ℕ) (reply : RefundReply)
      → Preserves Linked (finish_refund tables w g o transaction_id cents reply)
  unfolding finish_refund
  finish_refund-Linked o transaction_id cents RefundReply.refused s q = q
  finish_refund-Linked o transaction_id cents RefundReply.failed s q = q
  finish_refund-Linked o transaction_id cents (RefundReply.done refund_id) s q =
      let tell = tell_refunded tables w g o (or_text refund_id transaction_id) cents in
      Preserves-frame Linked (tell >> pure cents)
        (Frames-bind tell (λ _. pure cents)
          (tell_refunded-Frames w g 0 0 o (or_text refund_id transaction_id) cents)
          (λ _. Frames-pure cents))
        (with_orders s (update_where (has_id o.id) refunded s.orders))
        (all-update is_well_linked (has_id o.id) refunded s.orders (λ r _ h. refunded-Linked r h) q)

  pub refund_transaction-Linked :
      (id : ℕ) (amount : Option ℕ) → Preserves Linked (refund_transaction tables w g id amount)
  refund_transaction-Linked id amount s q = elim (refund_transaction-IsRefund w g 0 0 id amount s) [
    | inl (e, r) ↦ rw r q
    | inr (o, t, cents, read, paid, r) ↦
        rw r (finish_refund-Linked o t cents (g.refund t cents) s q)
  ]

  save_session-Linked :
      (o : Order) (secret : Text) (intention : Option Text)
      → Preserves Linked (save_session tables w g o secret intention)
  unfolding save_session
  save_session-Linked o secret intention s q =
      let hit = is_open_checkout tables w g o.id in
      let put = with_session tables w g secret intention in
      let saved = with_orders s (update_where hit put s.orders) in
      let q' : Linked saved.orders = all-update is_well_linked hit put s.orders (λ r _ h. h) q in
      let updated = length (keep hit s.orders) in
      let clash =
        ltb 0 (length (keep (session_clashes tables w g o.id secret intention) s.orders))
        && ltb 0 updated in
      let again = persisted_session tables w g o secret saved in
      let opened = pure (session_of g o secret true) saved in
      Preserves-either Linked clash
        (throw (bad_request "Failed to create Paymob checkout session") s)
        (if not (updated == 1) then again else opened) (λ _. q)
        (λ _.
          Preserves-either Linked (not (updated == 1)) again opened
            (λ _.
              Preserves-frame Linked (persisted_session tables w g o secret)
                (persisted_session-Frames w g 0 0 o secret) saved q')
            (λ _. q'))

  open_session-Linked :
      (o : Order) (reply : IntentionReply) → Preserves Linked (open_session tables w g o reply)
  unfolding open_session
  open_session-Linked o IntentionReply.refused s q = q
  open_session-Linked o IntentionReply.failed s q = q
  open_session-Linked o (IntentionReply.created none intention) s q = q
  open_session-Linked o (IntentionReply.created (some []) intention) s q = q
  open_session-Linked o (IntentionReply.created (some (d ∷ secret)) intention) s q =
      save_session-Linked o (d ∷ secret) intention s q

  reuse_or_open-Linked : (o : Order) → Preserves Linked (reuse_or_open tables w g o)
  unfolding reuse_or_open
  reuse_or_open-Linked o s q =
      elim (Option-cases (truthy_or (truthy_or o.payment_session_id o.paymob_intention_id) none)) [
        | inl e ↦ rw (e, reuse_or_open) (open_session-Linked o (g.intention o) s q)
        | inr (t, e) ↦ rw (e, reuse_or_open) q
      ]

  checkout_found-Linked :
      (caller : Caller) (o : Order) → Preserves Linked (checkout_found tables w g caller o)
  unfolding checkout_found
  checkout_found-Linked caller o =
      let foreign =
        not (is_admin caller)
        && not (is_order_owned_by_actor o.user_id o.guest_access_token caller) in
      let e1 = forbidden "You do not have permission to checkout this order" in
      let e2 = bad_request "COD orders cannot be processed via Paymob" in
      let e3 = bad_request "This order is not awaiting payment" in
      let e4 = bad_request "Order must contain at least one item" in
      let m4 = throw_if (is_nil o.items) e4 >> reuse_or_open tables w g o in
      let m3 = throw_if (not (awaits_payment w.now o)) e3 >> m4 in
      Preserves-unless Linked foreign e1 (throw_if (is_cod o.payment_method) e2 >> m3) (λ _.
        Preserves-unless Linked (is_cod o.payment_method) e2 m3 (λ _.
          Preserves-unless Linked (not (awaits_payment w.now o)) e3 m4 (λ _.
            Preserves-unless Linked (is_nil o.items) e4 (reuse_or_open tables w g o)
              (λ _. reuse_or_open-Linked o))))

  pub create_checkout_session-Linked :
      (id : ℕ) (caller : Caller) → Preserves Linked (create_checkout_session tables w g id caller)
  unfolding create_checkout_session
  create_checkout_session-Linked id caller =
      let read = λ (found : Option Order).
        or_throw found (not_found "Order not found") >>= checkout_found tables w g caller in
      Preserves-bind Linked (expire_order tables w id w.now)
        (λ _. gets (find_order tables w id) >>= read) (expire_order-Linked w id w.now)
        (λ _.
          read-Linked w (find_order tables w id) (not_found "Order not found")
            (checkout_found tables w g caller) (checkout_found-Linked caller))
