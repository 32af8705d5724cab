-- ===== src/Payment/Listing.antt =====
-- What `reconcilePayments` of src/payment/paymob.service.ts looks at, and what it reports.
use rive_backend.Base.{
  ℕ, ◌+◌, ◌-◌, ◌*◌, Bool, false, not, ◌&&◌, ◌||◌, Option, none, some, List, [], ◌∷◌, ◌==◌, leb,
  is_some, if◌then◌else◌, pure, ◌>>=◌, ◌>>◌, inl, inr, ◌⊎◌,
}
use Prim.Native.String.{String}
use rive_backend.Base.Text.{Text, text_eq, is_empty, is_blank, codes}
use rive_backend.Db.{Prisma}
use rive_backend.Schema.{Order}
use rive_backend.Store.{World, M, AuditEntry, reconciled}
use rive_backend.Audit.{record_audit}
use rive_backend.Orders.Status.{
  OrderStatus, PaymentStatus, same_status, is_cod, is_paid, is_refunded,
}
use rive_backend.Payment.Gateway.{Gateway, Transaction, truthy_or, is_true, is_false}

pub record Mismatch : Type 0 where
  pub order_id : ℕ
  pub order_number : Text
  pub db_status : OrderStatus
  pub db_payment_status : PaymentStatus
  pub paymob_status : PaymentStatus
  pub paymob_transaction_id : Text

pub record Summary : Type 0 where
  pub checked : ℕ
  pub repaired : ℕ
  pub manual_review : ℕ
  pub mismatches_count : ℕ
  pub unlinked_intentions : ℕ
  pub failed_checks : ℕ
  pub attempted : ℕ
  pub mismatches : List Mismatch

abbrev pub no_summary : Summary
no_summary = record {
  checked = 0;
  repaired = 0;
  manual_review = 0;
  mismatches_count = 0;
  unlinked_intentions = 0;
  failed_checks = 0;
  attempted = 0;
  mismatches = [];
}

abbrev pub a_day : ℕ
a_day = 24 * 60 * 60 * 1000

abbrev pub payment_rank : PaymentStatus → ℕ
payment_rank PaymentStatus.pending = 0
payment_rank PaymentStatus.paid = 1
payment_rank PaymentStatus.failed = 2
payment_rank PaymentStatus.refunded = 3

-- The `where` of the orders that are looked at.
unfoldable pub is_candidate : ℕ → Bool → Order → Bool
is_candidate since audit o =
    leb since o.created_at
    && not (is_cod o.payment_method)
    && (is_some o.paymob_transaction_id || is_some o.paymob_intention_id)
    && (audit
        || ((same_status o.status OrderStatus.pending
              || same_status o.status OrderStatus.cancelled
              || same_status o.status OrderStatus.expired)
            && not (is_paid o.payment_status)
            && not (is_refunded o.payment_status)))

abbrev pub insert_by_creation : Order → List Order → List Order
insert_by_creation o [] = o ∷ []
insert_by_creation o (p ∷ ps) =
    if leb o.created_at p.created_at then o ∷ p ∷ ps else p ∷ insert_by_creation o ps

-- `orderBy: { createdAt: "asc" }`
abbrev pub by_creation : List Order → List Order
by_creation [] = []
by_creation (o ∷ os) = insert_by_creation o (by_creation os)

-- `special_reference || merchant_order_id || ...`
abbrev pub reference_in : Transaction → Text
reference_in t = elim (truthy_or t.special_reference (truthy_or t.merchant_order_id none)) [
  | some r ↦ r
  | none ↦ t.order
]

abbrev pub is_settled : Transaction → Bool
is_settled t =
    is_true t.success
    && is_false t.pending
    && not (is_true t.is_voided)
    && not (is_true t.is_refunded)

-- `expectedPaymentStatus`
abbrev pub status_in : Transaction → PaymentStatus
status_in t =
    if is_true t.is_refunded
    then PaymentStatus.refunded
    else if is_settled t
    then PaymentStatus.paid
    else if is_false t.success && is_false t.pending
    then PaymentStatus.failed
    else PaymentStatus.pending

-- An amount, and a currency that is not blank.
abbrev pub amount_and_currency : Option ℕ → Option Text → Option (ℕ × Text)
amount_and_currency none c = none
amount_and_currency (some n) none = none
amount_and_currency (some n) (some c) = if is_blank c then none else some (n, c)

-- The entry's `entityId`.
abbrev pub is_about : ℕ → Text ⊎ ℕ → Bool
is_about id (inl t) = false
is_about id (inr n) = n == id

abbrev pub is_truthy : Option Text → Bool
is_truthy none = false
is_truthy (some t) = not (is_empty t)

module _ (db : Prisma) (w : World) (g : Gateway) where
  -- `recordAuditWithDeduplication`
  unfoldable pub record_audit_once : ℕ → String → Option Text → M (Unit {0})
  unfolding record_audit
  record_audit_once id action transaction_id s =
      let same = λ (e : AuditEntry).
        is_about id e.entity
        && text_eq (codes e.action) (codes action)
        && leb (w.now - a_day) e.created_at in
      elim (db.find_first same s.audit) [
        | none ↦ record_audit db w none action (inr id) (reconciled transaction_id) s
        | some e ↦ pure tt s
      ]

  unfoldable pub note_unlinked : Order → M (Unit {0})
  unfolding record_audit_once
  note_unlinked o =
      if is_truthy o.paymob_intention_id
      then record_audit_once o.id "payment.reconciliation_unlinked_intention" none
      else pure tt

  abbrev pub one_more_unlinked : Order → Summary → Summary
  one_more_unlinked o sum = record sum {
    unlinked_intentions =
        if is_truthy o.paymob_intention_id
        then sum.unlinked_intentions + 1
        else sum.unlinked_intentions;
  }

  -- One order, by its transaction, before the rest.
  unfoldable pub sort_one :
      Order
      → (Summary → M (List (Order × Text) × Summary))
      → Summary
      → Option Text
      → M (List (Order × Text) × Summary)
  unfolding note_unlinked
  sort_one o rest sum (some transaction_id) = do
    listed ← rest sum
    pure ((o, transaction_id) ∷ listed.0, listed.1)
  sort_one o rest sum none = do note_unlinked o; rest (one_more_unlinked o sum)

  -- The orders without a transaction are counted, those with one are listed.
  unfoldable pub sort_out : List Order → Summary → M (List (Order × Text) × Summary)
  unfolding sort_one
  sort_out [] sum = pure ([], sum)
  sort_out (o ∷ os) sum = sort_one o (sort_out os) sum (truthy_or o.paymob_transaction_id none)
