-- ===== src/Payment/Webhook.antt =====
-- `handleWebhook` of src/payment/paymob.service.ts, and the payment events.
use rive_backend.Base.{
  ℕ, Bool, false, not, ◌&&◌, Option, none, some, ltb, take, if◌then◌else◌, pure, throw, throw_if,
  ◌>>=◌, ◌>>◌, gets, transaction, bad_request, internal, unique_violation, Result, ok, err, inr,
}
use rive_backend.Base.Text.{Text, text_eq, is_empty, codes}
use rive_backend.Db.{Prisma}
use rive_backend.Schema.{Order}
use rive_backend.Store.{
  Store, World, M, ProcessedPaymobEvent, EventSource, AuditEntry, webhook_ignored,
}
use rive_backend.Util.Ownership.{timing_safe_string_equal}
use rive_backend.Agent.Events.{Event, Provider, Actor}
use rive_backend.Agent.Mapper.{to_order_ref, to_piasters}
use rive_backend.Agent.Outbox.{enqueue_in_tx}
use rive_backend.Orders.Status.{OrderStatus, is_cod}
use rive_backend.Orders.Emit.{find_order, has_id, kick_agent}
use rive_backend.Orders.Cancel.{cancel_pending_order_in_transaction, with_orders}
use rive_backend.Orders.Pay.{mark_paid_in_transaction}
use rive_backend.Payment.Gateway.{
  Gateway, Notice, Body, or_empty, truthy_or, is_true, is_false, calculate_hmac,
}

-- What a webhook is answered.
pub data Receipt : Type 0 where
  unmatched : Receipt
  ignored_cod : ℕ → Receipt
  paid : ℕ → OrderStatus → Receipt
  cancelled : ℕ → Receipt
  already_processed : Text → Receipt

-- `obj.special_reference || obj.order?.merchant_order_id || obj.merchant_order_id`
abbrev pub reference_of : Notice → Option ℕ
reference_of n = elim n.special_reference [
  | some k ↦ some k
  | none ↦ elim n.order_merchant_order_id [ some k ↦ some k | none ↦ n.merchant_order_id ]
]

abbrev pub is_success : Notice → Bool
is_success n = is_true n.success && is_false n.pending

abbrev pub event_type_of : Notice → Text
event_type_of n = elim (truthy_or n.type none) [ some t ↦ t | none ↦ codes "TRANSACTION" ]

module _ (db : Prisma) (w : World) (g : Gateway) where
  -- `processedPaymobEvent.create`, whose transaction is unique
  unfoldable pub record_event : Text → Text → Option ℕ → M (Unit {0})
  record_event transaction_id event_type order_id s =
      let same = λ (e : ProcessedPaymobEvent). text_eq e.paymob_transaction_id transaction_id in
      if ltb 0 (db.matched same s.paymob_events)
      then throw unique_violation s
      else pure tt (record s {
        paymob_events =
            db.create
              (record {
                paymob_transaction_id = transaction_id;
                event_type = event_type;
                order_id = order_id;
              })
              s.paymob_events;
      })

  -- `emitPaymentEvent` with the type "payment.succeeded"; `amount` is the transaction's
  unfoldable pub emit_succeeded : ℕ → Text → Option ℕ → M (Unit {0})
  unfolding find_order enqueue_in_tx to_order_ref to_piasters
  emit_succeeded id transaction_id amount s =
      let order = if w.has_agent then find_order db w id s else none in
      elim order [
        | none ↦ pure tt s
        | some o ↦
            (enqueue_in_tx db w EventSource.paymob (
                  Event.payment_succeeded (record {
                    order = to_order_ref o;
                    provider_txn_id = some transaction_id;
                    provider = Provider.paymob;
                    amount_piasters = elim amount [
                      | some n ↦ n
                      | none ↦ to_piasters o.total_amount
                    ];
                    paid_at = w.now;
                    collected_by = none;
                  }))
                >> pure tt)
              s
      ]

  -- ... and with the type "payment.failed"
  unfoldable pub emit_failed : ℕ → Text → Notice → M (Unit {0})
  unfolding find_order enqueue_in_tx to_order_ref
  emit_failed id transaction_id n s =
      let order = if w.has_agent then find_order db w id s else none in
      elim order [
        | none ↦ pure tt s
        | some o ↦
            (enqueue_in_tx db w EventSource.paymob (
                  Event.payment_failed (record {
                    order = to_order_ref o;
                    provider_txn_id = transaction_id;
                    failure_code = n.failure_code;
                    failure_text = elim n.failure_text [ none ↦ none | some t ↦ some (take 200 t) ];
                  }))
                >> pure tt)
              s
      ]

  -- `order.update({ data: { paymobTransactionId } })`: the transaction is unique among orders.
  abbrev pub links_to : Text → Order → Bool
  links_to transaction_id o = elim o.paymob_transaction_id [
    | none ↦ false
    | some t ↦ text_eq t transaction_id
  ]

  unfoldable pub link_transaction : ℕ → Text → M (Unit {0})
  link_transaction id transaction_id s =
      let taken =
        db.matched (λ (o : Order). not (has_id id o) && links_to transaction_id o) s.orders in
      if ltb 0 taken
      then throw unique_violation s
      else pure tt (
          with_orders s (
            db.update_many (has_id id)
              (λ (o : Order). record o { paymob_transaction_id = some transaction_id }) s.orders))

  -- `tx.auditLog.create` of a webhook for a COD order, which is not best-effort
  unfoldable pub audit_ignored : ℕ → Text → M (Unit {0})
  audit_ignored id transaction_id s =
      let entry : AuditEntry = record {
        user_id = none;
        action = "payment.paymob_webhook_ignored_cod";
        entity = inr id;
        changes = webhook_ignored transaction_id;
        created_at = w.now;
      } in
      if w.audit_up
      then pure tt (record s { audit = db.create entry s.audit })
      else throw (internal "Failed to process Paymob webhook") s

  unfoldable pub settle_success : ℕ → Text → Notice → M Receipt
  unfolding mark_paid_in_transaction link_transaction emit_succeeded
  settle_success id transaction_id n = do
    paid_order ← mark_paid_in_transaction db w id none
    link_transaction id transaction_id
    emit_succeeded id transaction_id (g.rounded n.amount_cents)
    pure (paid paid_order.id paid_order.status)

  unfoldable pub settle_failure : ℕ → Text → Notice → M Receipt
  unfolding emit_failed cancel_pending_order_in_transaction
  settle_failure id transaction_id n = do
    emit_failed id transaction_id n
    cancel_pending_order_in_transaction db w id OrderStatus.cancelled none none Actor.system
    pure (cancelled id)

  abbrev pub is_cod_order : Option Order → Bool
  is_cod_order none = false
  is_cod_order (some o) = is_cod o.payment_method

  -- After the event was recorded: a notice of an order.
  unfoldable pub settle_notice : ℕ → Text → Notice → M Receipt
  unfolding find_order audit_ignored settle_success settle_failure
  settle_notice id transaction_id n = do
    order ← gets (find_order db w id)
    if is_cod_order order
        then (audit_ignored id transaction_id >> pure (ignored_cod id))
        else if is_success n
        then settle_success id transaction_id n
        else settle_failure id transaction_id n

  -- The callback of the transaction.
  unfoldable pub process_notice : Text → Notice → M Receipt
  unfolding record_event settle_notice
  process_notice transaction_id n = do
    record_event transaction_id (event_type_of n) (reference_of n)
    elim (reference_of n) [ none ↦ pure unmatched | some id ↦ settle_notice id transaction_id n ]

  -- The `catch`: a unique violation is taken for a repetition.
  unfoldable pub forgive_repeat : Text → Result Receipt × Store → Result Receipt × Store
  forgive_repeat transaction_id (ok r, s) = (ok r, s)
  forgive_repeat transaction_id (err unique_violation, s) =
      (ok (already_processed transaction_id), s)
  forgive_repeat transaction_id (err e, s) = (err e, s)

  -- The transaction, with `.finally(() => kick())`, and the `catch`.
  unfoldable pub process : Text → Notice → M Receipt
  unfolding process_notice forgive_repeat kick_agent
  process transaction_id n s =
      let (r, t) = transaction (process_notice transaction_id n) s in
      forgive_repeat transaction_id (r, (kick_agent db w t).1)

  -- `signature || payload.hmac || payload.obj?.hmac || ""`
  abbrev pub received_hmac : Option Text → Notice → Text
  received_hmac signature n = or_empty (truthy_or signature n.hmac)

  unfoldable pub handle_notice : Notice → Option Text → M Receipt
  unfolding calculate_hmac timing_safe_string_equal process
  handle_notice n signature = do
    throw_if (is_empty g.hmac_secret) (bad_request "Paymob HMAC secret not configured")
    throw_if (is_empty (received_hmac signature n)) (bad_request "HMAC signature missing")
    throw_if
        (not (
          timing_safe_string_equal (some (w.lower (calculate_hmac g n)))
            (some (w.lower (received_hmac signature n)))))
        (bad_request "Webhook verification failed")
    throw_if (is_empty (or_empty n.id)) (bad_request "Webhook payload missing transaction ID")
    process (or_empty n.id) n

  unfoldable pub handle_webhook : Body → Option Text → M Receipt
  unfolding handle_notice
  handle_webhook Body.missing signature = throw (bad_request "Webhook payload missing")
  handle_webhook Body.unreadable signature = throw (bad_request "Invalid JSON payload Buffer")
  handle_webhook (Body.notice n) signature = handle_notice n signature
