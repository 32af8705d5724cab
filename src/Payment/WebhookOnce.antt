-- ===== src/Payment/WebhookOnce.antt =====
-- A payment is settled at most once (`handleWebhook` of src/payment/paymob.service.ts).
use rive_backend.Base.{
  ℕ, ◌≡◌, refl, sym, subst, Bool, true, false, Option, none, some, List, [], ◌∷◌, ◌++◌, keep,
  length, ltb, arith, Result, ok, err, settle, pure, bad_request, not_found, conflict, forbidden,
  throttled, internal, unauthorized, unavailable, bad_gateway, record_missing, unique_violation,
}
use rive_backend.Base.Text.{Text, text_eq, text_eq_refl}
use rive_backend.Db.{Prisma, IsPrisma, tables, on_every_db}
use rive_backend.Store.{Store, World, M, ProcessedPaymobEvent}
use rive_backend.Orders.Emit.{kick_agent}
use rive_backend.Orders.Frames.{SameBusiness, kick_agent-Frames}
use rive_backend.Orders.Ledger.{Ensures, Ensures-bind, Ensures-always, Ensures-either}
use rive_backend.Payment.Gateway.{Gateway, Notice, Body, or_empty}
use rive_backend.Payment.Webhook.{
  Receipt, unmatched, ignored_cod, paid, cancelled, already_processed, record_event, settle_notice,
  process_notice, reference_of, event_type_of, forgive_repeat, process, handle_notice,
  handle_webhook,
}
use rive_backend.Payment.Books.{handle_notice-by}
use rive_backend.Payment.Events.{settle_notice-events}

abbrev of_transaction : Text → ProcessedPaymobEvent → Bool
of_transaction transaction_id e = text_eq e.paymob_transaction_id transaction_id

-- The transaction is among the recorded events.
abbrev IsRecorded : Text → Store → Type 0
IsRecorded transaction_id s =
    ltb 0 (length (keep (of_transaction transaction_id) s.paymob_events)) ≡ true

abbrev pub is_repeat : Receipt → Bool
is_repeat (already_processed t) = true
is_repeat unmatched = false
is_repeat (ignored_cod id) = false
is_repeat (paid id status) = false
is_repeat (cancelled id) = false

kept-append :
    {A : Type 0} (p : A → Bool) (xs : List A) (x : A)
    → p x ≡ true
    → ltb 0 (length (keep p (xs ++ x ∷ []))) ≡ true
kept-append p [] x h = ground arith
kept-append p (y ∷ ys) x h = ground (arith, kept-append p ys x h)

recorded_later :
    (transaction_id : Text) (before after : List ProcessedPaymobEvent)
    → after ≡ before
    → ltb 0 (length (keep (of_transaction transaction_id) before)) ≡ true
    → ltb 0 (length (keep (of_transaction transaction_id) after)) ≡ true
recorded_later transaction_id before after same h = rw same h

module _ (w : World) (g : Gateway) where
  record_event-IsRecorded :
      (transaction_id type : Text) (order : Option ℕ) (s : Store)
      → Ensures
          (λ _ t. IsRecorded transaction_id t)
          (record_event tables w g transaction_id type order s)
  unfolding record_event
  record_event-IsRecorded transaction_id type order s =
      Ensures-either _ (ltb 0 (length (keep (of_transaction transaction_id) s.paymob_events))) _ _
        (λ there. tt)
        (λ fresh.
          kept-append (of_transaction transaction_id) s.paymob_events _
            (text_eq_refl transaction_id))

  settle_referred-IsRecorded :
      (order : Option ℕ) (transaction_id : Text) (n : Notice) (s : Store)
      → IsRecorded transaction_id s
      → Ensures
          (λ _ t. IsRecorded transaction_id t)
          ((elim order as (λ _. M Receipt) [
            | none ↦ pure unmatched
            | some id ↦ settle_notice tables w g id transaction_id n
          ])
            s)
  settle_referred-IsRecorded none transaction_id n s h = h
  settle_referred-IsRecorded (some id) transaction_id n s h =
      Ensures-always (IsRecorded transaction_id) (settle_notice tables w g id transaction_id n s) (
        recorded_later transaction_id s.paymob_events _
          (settle_notice-events tables w g id transaction_id n s) h)

  process_notice-IsRecorded :
      (transaction_id : Text) (n : Notice) (s : Store)
      → Ensures (λ _ t. IsRecorded transaction_id t) (process_notice tables w g transaction_id n s)
  unfolding process_notice
  process_notice-IsRecorded transaction_id n s =
      Ensures-bind (λ _ t. IsRecorded transaction_id t) (λ _ t. IsRecorded transaction_id t)
        (record_event tables w g transaction_id (event_type_of n) (reference_of n) s) _
        (record_event-IsRecorded transaction_id (event_type_of n) (reference_of n) s)
        (λ _ t h. settle_referred-IsRecorded (reference_of n) transaction_id n t h)

  -- Unless the answer is that of a repetition.
  abbrev Recorded : Text → Receipt → Store → Type 0
  Recorded transaction_id r t = is_repeat r ≡ false → IsRecorded transaction_id t

  forgive_repeat-Recorded :
      (transaction_id : Text) (s : Store) (r : Result Receipt × Store)
      → Ensures (λ _ t. IsRecorded transaction_id t) r
      → Ensures (Recorded transaction_id) (
          forgive_repeat tables w g transaction_id
            ((settle s r).0, (kick_agent tables w (settle s r).1).1))
  unfolding forgive_repeat
  forgive_repeat-Recorded transaction_id s (ok r, t) h =
      λ _. recorded_later transaction_id t.paymob_events _ (kick_agent-Frames tables w t).events h
  forgive_repeat-Recorded transaction_id s (err unique_violation, t) h = λ e. ground arith
  forgive_repeat-Recorded transaction_id s (err (bad_request m), t) h = tt
  forgive_repeat-Recorded transaction_id s (err (not_found m), t) h = tt
  forgive_repeat-Recorded transaction_id s (err (conflict m), t) h = tt
  forgive_repeat-Recorded transaction_id s (err (forbidden m), t) h = tt
  forgive_repeat-Recorded transaction_id s (err (throttled m), t) h = tt
  forgive_repeat-Recorded transaction_id s (err (internal m), t) h = tt
  forgive_repeat-Recorded transaction_id s (err (unauthorized m), t) h = tt
  forgive_repeat-Recorded transaction_id s (err (unavailable m), t) h = tt
  forgive_repeat-Recorded transaction_id s (err (bad_gateway m), t) h = tt
  forgive_repeat-Recorded transaction_id s (err record_missing, t) h = tt

  process-Recorded :
      (transaction_id : Text) (n : Notice) (s : Store)
      → Ensures (Recorded transaction_id) (process tables w g transaction_id n s)
  unfolding process
  process-Recorded transaction_id n s =
      forgive_repeat-Recorded transaction_id s (process_notice tables w g transaction_id n s)
        (process_notice-IsRecorded transaction_id n s)

  handle_notice-Recorded :
      (n : Notice) (signature : Option Text) (s : Store)
      → Ensures (Recorded (or_empty n.id)) (handle_notice tables w g n signature s)
  handle_notice-Recorded n signature s =
      handle_notice-by tables w g n signature s (Ensures (Recorded (or_empty n.id))) (λ e. tt)
        (process-Recorded (or_empty n.id) n s)

  -- A recorded transaction is not processed again.
  process_notice-again :
      (transaction_id : Text) (n : Notice) (t : Store)
      → IsRecorded transaction_id t
      → process_notice tables w g transaction_id n t ≡ (err unique_violation, t)
  unfolding process_notice record_event
  process_notice-again transaction_id n t h = rw h refl

  process-again :
      (transaction_id : Text) (n : Notice) (t : Store)
      → IsRecorded transaction_id t
      → process tables w g transaction_id n t
        ≡ (ok (already_processed transaction_id), (kick_agent tables w t).1)
  unfolding process forgive_repeat
  process-again transaction_id n t h = rw (process_notice-again transaction_id n t h) refl

-- What a repetition does: nothing to the business tables, and where it returns, it says so.
abbrev AnswersRepeat : Text → Store → Result Receipt × Store → Type 0
AnswersRepeat transaction_id t r =
    SameBusiness t r.1 × Ensures (λ x _. x ≡ already_processed transaction_id) r

process-AnswersRepeat :
    (w : World) (g : Gateway) (transaction_id : Text) (n : Notice) (t : Store)
    → IsRecorded transaction_id t
    → AnswersRepeat transaction_id t (process tables w g transaction_id n t)
process-AnswersRepeat w g transaction_id n t h =
    rw (process-again w g transaction_id n t h) (kick_agent-Frames tables w t, refl)

handle_notice-AnswersRepeat :
    (w : World) (g : Gateway) (n : Notice) (signature : Option Text) (t : Store)
    → IsRecorded (or_empty n.id) t
    → AnswersRepeat (or_empty n.id) t (handle_notice tables w g n signature t)
handle_notice-AnswersRepeat w g n signature t h =
    handle_notice-by tables w g n signature t (AnswersRepeat (or_empty n.id) t)
      (λ e. (record { orders = refl; variants = refl; coupons = refl; events = refl }, tt))
      (process-AnswersRepeat w g (or_empty n.id) n t h)

abbrev SettlesOnce : Prisma → Type 0
SettlesOnce db =
    (w w' : World) (g g' : Gateway) (n n' : Notice) (signature signature' : Option Text)
    → (s t : Store) (r : Receipt) → or_empty n'.id ≡ or_empty n.id
    → handle_webhook db w g (Body.notice n) signature s ≡ (ok r, t)
    → is_repeat r ≡ false
    → SameBusiness t (handle_webhook db w' g' (Body.notice n') signature' t).1
      × Ensures (λ x _. x ≡ already_processed (or_empty n.id))
          (handle_webhook db w' g' (Body.notice n') signature' t)

tables-SettlesOnce : SettlesOnce tables
unfolding handle_webhook
tables-SettlesOnce w w' g g' n n' signature signature' s t r same done fresh =
    let recorded =
      subst (Ensures (Recorded w g (or_empty n.id))) done (handle_notice-Recorded w g n signature s)
        fresh in
    subst (λ k. AnswersRepeat k t (handle_notice tables w' g' n' signature' t)) same
      (handle_notice-AnswersRepeat w' g' n' signature' t
        (subst (λ k. IsRecorded k t) (sym same) recorded))

-- A payment is settled at most once: after a notice that was processed, and not answered as a
-- repetition, every notice with the same transaction id that comes next, whatever else it says and
-- however it is signed, leaves orders, stock, coupons and the payment events as they are, and where
-- it is not refused it is answered as already processed.
pub handle_webhook-once :
    (db : Prisma)
    → IsPrisma db
    → (w w' : World) (g g' : Gateway) (n n' : Notice) (signature signature' : Option Text)
    → (s t : Store) (r : Receipt) → or_empty n'.id ≡ or_empty n.id
    → handle_webhook db w g (Body.notice n) signature s ≡ (ok r, t)
    → is_repeat r ≡ false
    → SameBusiness t (handle_webhook db w' g' (Body.notice n') signature' t).1
      × Ensures
          (λ x _. x ≡ already_processed (or_empty n.id))
          (handle_webhook db w' g' (Body.notice n') signature' t)
handle_webhook-once = on_every_db SettlesOnce tables-SettlesOnce
