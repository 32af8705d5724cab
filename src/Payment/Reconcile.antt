-- ===== src/Payment/Reconcile.antt =====
-- `reconcilePayments` of src/payment/paymob.service.ts. The code runs the checks of five orders at a
-- time; here they follow one another. The texts that it logs and returns are left out.
use rive_backend.Base.{
  ℕ, ◌+◌, ◌-◌, ◌*◌, Bool, not, ◌&&◌, ◌||◌, none, some, List, [], ◌∷◌, ◌++◌, ◌==◌, ltb, take,
  if◌then◌else◌, pure, throw_if, ◌>>=◌, ◌>>◌, gets, unavailable, bad_gateway,
}
use Prim.Native.String.{String}
use rive_backend.Base.Text.{Text, text_eq, is_empty, is_blank, trim, codes}
use rive_backend.Db.{Prisma}
use rive_backend.Schema.{Order}
use rive_backend.Store.{World, M}
use rive_backend.Agent.Mapper.{to_piasters}
use rive_backend.Orders.Status.{OrderStatus, PaymentStatus, same_status}
use rive_backend.Payment.Gateway.{Gateway, Transaction, TransactionReply}
use rive_backend.Payment.Listing.{
  Summary, a_day, amount_and_currency, by_creation, is_candidate, is_settled, no_summary,
  payment_rank, record_audit_once, reference_in, sort_out, status_in,
}
use rive_backend.Payment.Repair.{Repair, repair_pending, revive}

module _ (db : Prisma) (w : World) (g : Gateway) where
  abbrev pub mismatched : Order → Text → PaymentStatus → Summary → Summary
  mismatched order transaction_id status sum = record sum {
    mismatches_count = sum.mismatches_count + 1;
    manual_review = sum.manual_review + 1;
    mismatches =
        sum.mismatches
        ++ (record {
          order_id = order.id;
          order_number = order.order_number;
          db_status = order.status;
          db_payment_status = order.payment_status;
          paymob_status = status;
          paymob_transaction_id = transaction_id;
        })
          ∷ [];
  }

  -- A mismatch, and its audit entry.
  unfoldable pub review : Order → Text → PaymentStatus → String → Summary → M Summary
  unfolding record_audit_once
  review order transaction_id status action sum = do
    record_audit_once db w g order.id action (some transaction_id)
    pure (mismatched order transaction_id status sum)

  abbrev pub manual_review_action : String
  manual_review_action = "payment.reconciliation_needs_manual_review"

  -- What follows a repair that returned.
  unfoldable pub note_repair : Order → Text → Summary → Repair → M Summary
  unfolding record_audit_once review
  note_repair order transaction_id sum Repair.not_made = pure sum
  note_repair order transaction_id sum Repair.short_of_stock =
      review order transaction_id PaymentStatus.paid manual_review_action sum
  note_repair order transaction_id sum (Repair.made over) = do
    record_audit_once db w g order.id "payment.reconciliation_auto_repair" (some transaction_id)
    if over
        then record_audit_once db w g order.id "payment.reconciliation_coupon_over_limit"
            (some transaction_id)
        else pure tt
    pure (record sum { repaired = sum.repaired + 1 })

  -- A payment that was made, of the right amount.
  unfoldable pub repair : Order → Text → Transaction → Summary → M Summary
  unfolding repair_pending revive note_repair
  repair order transaction_id t sum =
      if same_status order.status OrderStatus.pending
      then (repair_pending db w g order.id transaction_id t
          >>= note_repair order transaction_id sum)
      else if same_status order.status OrderStatus.cancelled
          || same_status order.status OrderStatus.expired
      then (revive db w g order transaction_id t >>= note_repair order transaction_id sum)
      else pure sum

  unfoldable pub compare : Order → Text → Transaction → Bool → Bool → Summary → M Summary
  unfolding review
  compare order transaction_id t same_amount same_currency sum =
      let status = status_in t in
      if not (payment_rank order.payment_status == payment_rank status)
        || (not same_amount && is_settled t)
        || (not same_currency && is_settled t)
      then review order transaction_id status
          (if not same_amount || not same_currency
            then manual_review_action
            else "payment.reconciliation_mismatch")
          sum
      else pure sum

  unfoldable pub check_amount : Order → Text → Transaction → ℕ → Text → Summary → M Summary
  unfolding repair compare to_piasters trim
  check_amount order transaction_id t amount currency sum =
      let same_amount = amount == to_piasters order.total_amount in
      let same_currency = text_eq (w.upper (trim currency)) (codes "EGP") in
      if is_settled t && same_amount && same_currency
      then repair order transaction_id t sum
      else compare order transaction_id t same_amount same_currency sum

  -- The reference of the transaction is the key or the number of the order.
  abbrev pub is_bound : Order → Text → Bool
  is_bound order reference =
      not (is_empty reference)
      && (text_eq reference (g.id_text order.id) || text_eq reference order.order_number)

  unfoldable pub check_answer : Order → Text → Transaction → Summary → M Summary
  unfolding review check_amount
  check_answer order transaction_id t sum =
      if not (is_bound order (reference_in t))
      then review order transaction_id PaymentStatus.paid manual_review_action sum
      else elim (amount_and_currency t.amount t.currency) [
        | none ↦ review order transaction_id PaymentStatus.pending manual_review_action sum
        | some p ↦ check_amount order transaction_id t p.0 p.1 sum
      ]

  abbrev pub one_failed : Summary → Summary
  one_failed sum = record sum { failed_checks = sum.failed_checks + 1 }

  unfoldable pub check_reply : Order → Text → TransactionReply → Summary → M Summary
  unfolding check_answer
  check_reply order transaction_id TransactionReply.unreachable sum = pure (one_failed sum)
  check_reply order transaction_id TransactionReply.refused sum = pure (one_failed sum)
  check_reply order transaction_id TransactionReply.unreadable sum = pure (one_failed sum)
  check_reply order transaction_id (TransactionReply.answered t) sum =
      check_answer order transaction_id t (record sum { checked = sum.checked + 1 })

  unfoldable pub check_all : List (Order × Text) → Summary → M Summary
  unfolding check_reply
  check_all [] sum = pure sum
  check_all (o ∷ os) sum = do
    next ← check_reply o.0 o.1 (g.transaction o.1) (record sum { attempted = sum.attempted + 1 })
    check_all os next

  unfoldable pub reconcile_payments : ℕ → Bool → M Summary
  unfolding is_candidate sort_out check_all
  reconcile_payments days_back audit = do
    throw_if (is_blank g.api_key) (unavailable "Paymob API key is not configured")
    orders ← gets (λ s.
        take 200
          (by_creation (db.find_many (is_candidate (w.now - days_back * a_day) audit) s.orders)))
    listed ← sort_out db w g orders no_summary
    sum ← check_all listed.0 listed.1
    throw_if (ltb 0 sum.attempted && ltb sum.attempted (sum.failed_checks * 2))
        (bad_gateway "Paymob reconciliation failed")
    pure sum
