-- ===== src/Payment/Linked.antt =====
-- The calls of `PaymobService` keep payments linked to orders that were paid for.
pub mod Selling
pub mod Runs
use rive_backend.Base.{
  ℕ, ◌≡◌, refl, sym, subst, Bool, true, false, not, ◌&&◌, ◌||◌, Option, none, some, List, [], ◌∷◌,
  arith, all, keep, length, ltb, if◌then◌else◌, ◌>>=◌, ◌>>◌, gets, pure, throw, throw_if,
  unique_violation, transaction, Option-cases, inl, inr, Result, ok, err, settle, is_some,
}
use rive_backend.Base.Text.{Text, text_eq}
use rive_backend.Db.{tables, update_where}
use rive_backend.Schema.{Order}
use rive_backend.Store.{Store, World, M, ProcessedPaymobEvent}
use rive_backend.Agent.Events.{Actor}
use rive_backend.Orders.Status.{OrderStatus}
use rive_backend.Orders.Emit.{has_id, find_order, kick_agent}
use rive_backend.Orders.Cancel.{with_orders, cancel_pending_order_in_transaction}
use rive_backend.Orders.Pay.{mark_paid_in_transaction}
use rive_backend.Orders.Frames.{SameBusiness, Frames-bind, Frames-pure, kick_agent-Frames}
use rive_backend.Orders.Ledger.{
  IsSound, Ensures, Ensures-bind, Ensures-map, Ensures-always, Ensures-if, Ensures-either,
  settle-keeps,
}
use rive_backend.Orders.Preserve.{Preserves, Preserves-bind, Preserves-frame}
use rive_backend.Orders.Linked.{Linked, is_well_linked}
use rive_backend.Orders.Linked.Steps.{cancel_pending_order_in_transaction-Linked}
use rive_backend.Payment.Gateway.{Gateway, Notice, Body, or_empty}
use rive_backend.Payment.Webhook.{
  Receipt, paid, cancelled, unmatched, ignored_cod, record_event, link_transaction, links_to,
  emit_succeeded, emit_failed, audit_ignored, settle_success, settle_failure, settle_notice,
  is_cod_order, is_success, process_notice, reference_of, event_type_of, forgive_repeat, process,
  handle_notice, handle_webhook,
}
use rive_backend.Payment.Books.{
  emit_succeeded-Frames, emit_failed-Frames, audit_ignored-Frames, handle_notice-by,
}
use rive_backend.Payment.Books.Settling.{forgive_repeat-state}
use rive_backend.Payment.Linking.{Payable, PaidFor, is_payable, cod_of, mark_paid-PaidFor}

-- What is paid for may be linked.
link-Linked :
    (id : ℕ) (transaction_id : Text) (os : List Order)
    → Payable id os
    → Linked os
    → Linked (
        update_where
          (has_id id)
          (λ (o : Order). record o { paymob_transaction_id = some transaction_id })
          os)
link-Linked id transaction_id [] payable linked = refl
link-Linked id transaction_id (o ∷ os) payable linked =
    ground (arith, link-Linked id transaction_id os)

module _ (w : World) (g : Gateway) (c : ℕ) where
  link_transaction-Linked :
      (id : ℕ) (transaction_id : Text) (o : Order) (s : Store)
      → PaidFor w id o s
      → Ensures (λ _ t. Linked t.orders) (link_transaction tables w g id transaction_id s)
  unfolding link_transaction
  link_transaction-Linked id transaction_id o s (linked, payable) =
      let taken = λ (o : Order). not (has_id id o) && links_to tables w g transaction_id o in
      Ensures-either _ (ltb 0 (length (keep taken s.orders))) _ _ (λ there. tt)
        (λ free. link-Linked id transaction_id s.orders payable linked)

  settle_success-Linked :
      (id : ℕ) (transaction_id : Text) (n : Notice) (s : Store)
      → IsSound c s
      → Linked s.orders
      → cod_of (find_order tables w id s) ≡ false
      → Ensures (λ _ t. Linked t.orders) (settle_success tables w g id transaction_id n s)
  unfolding settle_success
  settle_success-Linked id transaction_id n s sound linked online =
      let tell = emit_succeeded tables w g id transaction_id (g.rounded n.amount_cents) in
      Ensures-bind (PaidFor w id) (λ _ t. Linked t.orders)
        (mark_paid_in_transaction tables w id none s) _
        (mark_paid-PaidFor w id c none s sound linked online)
        (λ o t paid_for.
          Ensures-bind (λ _ u. Linked u.orders) (λ _ u. Linked u.orders)
            (link_transaction tables w g id transaction_id t)
            (λ _. tell >> pure (paid o.id o.status))
            (link_transaction-Linked id transaction_id o t paid_for)
            (λ _ u linked_u.
              Ensures-always (λ x. Linked x.orders) ((tell >> pure (paid o.id o.status)) u)
                (Preserves-frame Linked (tell >> pure (paid o.id o.status))
                  (Frames-bind tell (λ _. pure (paid o.id o.status))
                    (emit_succeeded-Frames tables w g id transaction_id (g.rounded n.amount_cents))
                    (λ _. Frames-pure (paid o.id o.status)))
                  u linked_u)))

  settle_failure-Linked :
      (id : ℕ) (transaction_id : Text) (n : Notice)
      → Preserves Linked (settle_failure tables w g id transaction_id n)
  unfolding settle_failure
  settle_failure-Linked id transaction_id n =
      let cancel =
        cancel_pending_order_in_transaction tables w id OrderStatus.cancelled none none
          Actor.system in
      Preserves-bind Linked (emit_failed tables w g id transaction_id n)
        (λ _. cancel >> pure (cancelled id))
        (Preserves-frame Linked (emit_failed tables w g id transaction_id n)
          (emit_failed-Frames tables w g id transaction_id n))
        (λ _.
          Preserves-bind Linked cancel (λ _. pure (cancelled id))
            (cancel_pending_order_in_transaction-Linked w id OrderStatus.cancelled none none
              Actor.system)
            (λ _ s q. q))

  same_cod : (o : Option Order) → is_cod_order tables w g o ≡ cod_of o
  same_cod none = refl
  same_cod (some o) = refl

  settle_notice-Linked :
      (id : ℕ) (transaction_id : Text) (n : Notice) (s : Store)
      → IsSound c s
      → Linked s.orders
      → Ensures (λ _ t. Linked t.orders) (settle_notice tables w g id transaction_id n s)
  unfolding settle_notice
  settle_notice-Linked id transaction_id n s sound linked =
      let audit = audit_ignored tables w g id transaction_id in
      let succeed = settle_success tables w g id transaction_id n in
      let fail = settle_failure tables w g id transaction_id n in
      Ensures-if _ (is_cod_order tables w g (find_order tables w id s))
        (audit >> pure (ignored_cod id)) (if is_success n then succeed else fail) s
        (λ _.
          Ensures-always (λ x. Linked x.orders) ((audit >> pure (ignored_cod id)) s)
            (Preserves-frame Linked (audit >> pure (ignored_cod id))
              (Frames-bind audit (λ _. pure (ignored_cod id))
                (audit_ignored-Frames tables w g id transaction_id)
                (λ _. Frames-pure (ignored_cod id)))
              s linked))
        (λ online.
          Ensures-if _ (is_success n) succeed fail s
            (λ _.
              settle_success-Linked id transaction_id n s sound linked
                (subst (λ b. b ≡ false) (same_cod (find_order tables w id s)) online))
            (λ _.
              Ensures-always (λ x. Linked x.orders) (fail s)
                (settle_failure-Linked id transaction_id n s linked)))

  settle_referred-Linked :
      (order : Option ℕ) (transaction_id : Text) (n : Notice) (s : Store)
      → IsSound c s
      → Linked s.orders
      → Ensures
          (λ _ t. Linked t.orders)
          ((elim order as (λ _. M Receipt) [
            | none ↦ pure unmatched
            | some id ↦ settle_notice tables w g id transaction_id n
          ])
            s)
  settle_referred-Linked none transaction_id n s sound linked = linked
  settle_referred-Linked (some id) transaction_id n s sound linked =
      settle_notice-Linked id transaction_id n s sound linked

  record_event-same :
      (transaction_id type : Text) (order : Option ℕ) (s : Store)
      → Ensures
          (λ _ t. (t.orders ≡ s.orders) × (t.variants ≡ s.variants) × (t.coupons ≡ s.coupons))
          (record_event tables w g transaction_id type order s)
  unfolding record_event
  record_event-same transaction_id type order s =
      let same = λ (e : ProcessedPaymobEvent). text_eq e.paymob_transaction_id transaction_id in
      Ensures-either _ (ltb 0 (length (keep same s.paymob_events))) _ _ (λ there. tt)
        (λ fresh. (refl, refl, refl))

  process_notice-Linked :
      (transaction_id : Text) (n : Notice) (s : Store)
      → IsSound c s
      → Linked s.orders
      → Ensures (λ _ t. Linked t.orders) (process_notice tables w g transaction_id n s)
  unfolding process_notice
  process_notice-Linked transaction_id n s sound linked =
      Ensures-bind
        (λ _ t. (t.orders ≡ s.orders) × (t.variants ≡ s.variants) × (t.coupons ≡ s.coupons))
        (λ _ t. Linked t.orders)
        (record_event tables w g transaction_id (event_type_of n) (reference_of n) s) _
        (record_event-same transaction_id (event_type_of n) (reference_of n) s)
        (λ _ t (os, vs, cs).
          settle_referred-Linked (reference_of n) transaction_id n t
            (record {
              order_keys = rw os sound.order_keys;
              variant_keys = rw vs sound.variant_keys;
              coupon_keys = rw cs sound.coupon_keys;
              none_deleted = rw os sound.none_deleted;
              balanced = rw (os, cs) sound.balanced;
            })
            (rw os linked))

  process-Linked :
      (transaction_id : Text) (n : Notice) (s : Store)
      → IsSound c s
      → Linked s.orders
      → Linked (process tables w g transaction_id n s).1.orders
  unfolding process
  process-Linked transaction_id n s sound linked =
      let (r, t) = transaction (process_notice tables w g transaction_id n) s in
      let linked_t : Linked t.orders =
        settle-keeps (λ x. Linked x.orders) s (process_notice tables w g transaction_id n s) linked
          (process_notice-Linked transaction_id n s sound linked) in
      subst (λ x. Linked x.orders)
        (sym (forgive_repeat-state w g 0 0 transaction_id r (kick_agent tables w t).1))
        (Preserves-frame Linked (kick_agent tables w) (kick_agent-Frames tables w) t linked_t)

  pub handle_webhook-Linked :
      (body : Body) (signature : Option Text) (s : Store)
      → IsSound c s
      → Linked s.orders
      → Linked (handle_webhook tables w g body signature s).1.orders
  unfolding handle_webhook
  handle_webhook-Linked Body.missing signature s sound linked = linked
  handle_webhook-Linked Body.unreadable signature s sound linked = linked
  handle_webhook-Linked (Body.notice n) signature s sound linked =
      handle_notice-by tables w g n signature s (λ r. Linked r.1.orders) (λ e. linked)
        (process-Linked (or_empty n.id) n s sound linked)
