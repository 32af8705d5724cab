-- ===== src/Payment/Books/Settling.antt =====
-- `handleWebhook` of src/payment/paymob.service.ts keeps the books.
use rive_backend.Base.{
  ℕ, ◌≡◌, refl, Bool, not, ◌&&◌, Option, none, some, ltb, ◌>>◌, pure, throw_if, length, keep,
  transaction, Result, ok, err, unique_violation, bad_request, not_found, conflict, forbidden,
  throttled, internal, unauthorized, unavailable, bad_gateway, record_missing, Failure,
}
use rive_backend.Base.Text.{Text, text_eq}
use rive_backend.Db.{tables}
use rive_backend.Schema.{Order}
use rive_backend.Store.{Store, World, M, ProcessedPaymobEvent}
use rive_backend.Agent.Events.{Actor}
use rive_backend.Orders.Status.{OrderStatus}
use rive_backend.Orders.Emit.{has_id, find_order, kick_agent}
use rive_backend.Orders.Cancel.{cancel_pending_order_in_transaction}
use rive_backend.Orders.Pay.{mark_paid_in_transaction}
use rive_backend.Orders.Frames.{Frames-bind, Frames-pure, Frames-throw_if, kick_agent-Frames}
use rive_backend.Orders.Ledger.{
  Keeps, Keeps-refl, Keeps-trans, Keeps-frame, Ensures-either, KeepsBooks, KeepsBooks-bind,
  KeepsBooks-frame, KeepsBooks-if, transaction-keeps,
}
use rive_backend.Orders.Ledger.Cancelling.{cancel_pending_order_in_transaction-keeps}
use rive_backend.Orders.Ledger.Paying.{IsMild-by, update-keeps, mark_paid_in_transaction-keeps}
use rive_backend.Orders.Ledger.Moving.{has_id-id}
use rive_backend.Orders.Ledger.Services.{AlwaysKeeps, AlwaysKeeps-bind, AlwaysKeeps-frame}
use rive_backend.Payment.Gateway.{Gateway, Notice, Body, or_empty}
use rive_backend.Payment.Webhook.{
  record_event, link_transaction, links_to, emit_succeeded, emit_failed, audit_ignored,
  settle_success, settle_failure, settle_notice, is_cod_order, is_success, process_notice,
  reference_of, event_type_of, forgive_repeat, process, handle_notice, handle_webhook, Receipt,
  paid, cancelled, unmatched, ignored_cod,
}
use rive_backend.Payment.Books.{
  emit_succeeded-Frames, emit_failed-Frames, audit_ignored-Frames, handle_notice-by,
}

module _ (w : World) (g : Gateway) (v c : ℕ) where
  pub record_event-keeps :
      (transaction_id type : Text) (order : Option ℕ)
      → KeepsBooks v c (record_event tables w g transaction_id type order)
  unfolding record_event
  record_event-keeps transaction_id type order s sound =
      let same = λ (e : ProcessedPaymobEvent). text_eq e.paymob_transaction_id transaction_id in
      Ensures-either _ (ltb 0 (length (keep same s.paymob_events))) _ _ (λ there. tt)
        (λ fresh. record {
          sound = record {
            order_keys = sound.order_keys;
            variant_keys = sound.variant_keys;
            coupon_keys = sound.coupon_keys;
            none_deleted = sound.none_deleted;
            balanced = sound.balanced;
          };
          same_pieces = refl;
        })

  pub link_transaction-keeps :
      (id : ℕ) (transaction_id : Text)
      → KeepsBooks v c (link_transaction tables w g id transaction_id)
  unfolding link_transaction
  link_transaction-keeps id transaction_id s sound =
      let linked = λ (o : Order). record o { paymob_transaction_id = some transaction_id } in
      let taken = λ (o : Order). not (has_id id o) && links_to tables w g transaction_id o in
      Ensures-either _ (ltb 0 (length (keep taken s.orders))) _ _ (λ there. tt)
        (λ free.
          update-keeps w v c id (has_id id) linked s (has_id-id w v c id)
            (IsMild-by linked (λ r. (refl, refl, refl, refl))) (λ r found. refl) sound)

  settle_success-keeps :
      (id : ℕ) (transaction_id : Text) (n : Notice)
      → KeepsBooks v c (settle_success tables w g id transaction_id n)
  unfolding settle_success
  settle_success-keeps id transaction_id n =
      let tell = emit_succeeded tables w g id transaction_id (g.rounded n.amount_cents) in
      KeepsBooks-bind v c (mark_paid_in_transaction tables w id none) _
        (mark_paid_in_transaction-keeps w v c id none)
        (λ o.
          KeepsBooks-bind v c (link_transaction tables w g id transaction_id)
            (λ _. tell >> pure (paid o.id o.status)) (link_transaction-keeps id transaction_id)
            (λ _. KeepsBooks-frame v c (tell >> pure (paid o.id o.status)) (
              Frames-bind tell _
                (emit_succeeded-Frames tables w g id transaction_id (g.rounded n.amount_cents))
                (λ _. Frames-pure (paid o.id o.status)))))

  settle_failure-keeps :
      (id : ℕ) (transaction_id : Text) (n : Notice)
      → KeepsBooks v c (settle_failure tables w g id transaction_id n)
  unfolding settle_failure
  settle_failure-keeps id transaction_id n =
      KeepsBooks-bind v c (emit_failed tables w g id transaction_id n) _
        (KeepsBooks-frame v c (emit_failed tables w g id transaction_id n)
          (emit_failed-Frames tables w g id transaction_id n))
        (λ _.
          KeepsBooks-bind v c
            (cancel_pending_order_in_transaction tables w id OrderStatus.cancelled none none
              Actor.system)
            (λ _. pure (cancelled id))
            (cancel_pending_order_in_transaction-keeps w v c id OrderStatus.cancelled none none _
              refl)
            (λ _. KeepsBooks-frame v c (pure (cancelled id)) (Frames-pure (cancelled id))))

  settle_notice-keeps :
      (id : ℕ) (transaction_id : Text) (n : Notice)
      → KeepsBooks v c (settle_notice tables w g id transaction_id n)
  unfolding settle_notice
  settle_notice-keeps id transaction_id n s =
      KeepsBooks-if v c (is_cod_order tables w g (find_order tables w id s)) _ _
        (KeepsBooks-frame v c (audit_ignored tables w g id transaction_id >> pure (ignored_cod id))
          (Frames-bind (audit_ignored tables w g id transaction_id) _
            (audit_ignored-Frames tables w g id transaction_id)
            (λ _. Frames-pure (ignored_cod id))))
        (KeepsBooks-if v c (is_success n) _ _ (settle_success-keeps id transaction_id n)
          (settle_failure-keeps id transaction_id n))
        s

  settle_referred-keeps :
      (order : Option ℕ) (transaction_id : Text) (n : Notice)
      → KeepsBooks v c (elim order as (λ _. M Receipt) [
        | none ↦ pure unmatched
        | some id ↦ settle_notice tables w g id transaction_id n
      ])
  settle_referred-keeps none transaction_id n =
      KeepsBooks-frame v c (pure unmatched) (Frames-pure unmatched)
  settle_referred-keeps (some id) transaction_id n = settle_notice-keeps id transaction_id n

  process_notice-keeps :
      (transaction_id : Text) (n : Notice)
      → KeepsBooks v c (process_notice tables w g transaction_id n)
  unfolding process_notice
  process_notice-keeps transaction_id n =
      KeepsBooks-bind v c
        (record_event tables w g transaction_id (event_type_of n) (reference_of n)) _
        (record_event-keeps transaction_id (event_type_of n) (reference_of n))
        (λ _. settle_referred-keeps (reference_of n) transaction_id n)

  pub forgive_repeat-state :
      (transaction_id : Text) (r : Result Receipt) (s : Store)
      → (forgive_repeat tables w g transaction_id (r, s)).1 ≡ s
  unfolding forgive_repeat
  forgive_repeat-state transaction_id (ok r) s = refl
  forgive_repeat-state transaction_id (err unique_violation) s = refl
  forgive_repeat-state transaction_id (err (bad_request m)) s = refl
  forgive_repeat-state transaction_id (err (not_found m)) s = refl
  forgive_repeat-state transaction_id (err (conflict m)) s = refl
  forgive_repeat-state transaction_id (err (forbidden m)) s = refl
  forgive_repeat-state transaction_id (err (throttled m)) s = refl
  forgive_repeat-state transaction_id (err (internal m)) s = refl
  forgive_repeat-state transaction_id (err (unauthorized m)) s = refl
  forgive_repeat-state transaction_id (err (unavailable m)) s = refl
  forgive_repeat-state transaction_id (err (bad_gateway m)) s = refl
  forgive_repeat-state transaction_id (err record_missing) s = refl

  process-keeps :
      (transaction_id : Text) (n : Notice) → AlwaysKeeps v c (process tables w g transaction_id n)
  unfolding process
  process-keeps transaction_id n s sound =
      let (r, t) = transaction (process_notice tables w g transaction_id n) s in
      let kept =
        transaction-keeps v c (process_notice tables w g transaction_id n)
          (process_notice-keeps transaction_id n) s sound in
      rw (forgive_repeat-state transaction_id r (kick_agent tables w t).1)
        (Keeps-trans kept (Keeps-frame v (kick_agent-Frames tables w t) kept.sound))

  pub AlwaysKeeps-unless :
      {A : Type 0} (b : Bool) (e : Failure) (m : M A)
      → AlwaysKeeps v c m
      → AlwaysKeeps v c (throw_if b e >> m)
  AlwaysKeeps-unless b e m h =
      AlwaysKeeps-bind v c (throw_if b e) (λ _. m)
        (AlwaysKeeps-frame v c (throw_if b e) (Frames-throw_if b e)) (λ _. h)

  handle_notice-keeps :
      (n : Notice) (signature : Option Text)
      → AlwaysKeeps v c (handle_notice tables w g n signature)
  handle_notice-keeps n signature s sound =
      handle_notice-by tables w g n signature s (λ r. Keeps v c s r.1) (λ e. Keeps-refl v sound)
        (process-keeps (or_empty n.id) n s sound)

  pub handle_webhook-keeps :
      (body : Body) (signature : Option Text)
      → AlwaysKeeps v c (handle_webhook tables w g body signature)
  unfolding handle_webhook
  handle_webhook-keeps Body.missing signature s sound = Keeps-refl v sound
  handle_webhook-keeps Body.unreadable signature s sound = Keeps-refl v sound
  handle_webhook-keeps (Body.notice n) signature s sound = handle_notice-keeps n signature s sound
