-- ===== src/Payment/Idle.antt =====
-- What `reconcilePayments` of src/payment/paymob.service.ts finds to do, without `audit`.
use rive_backend.Base.{
  ℕ, zero, suc, ◌-◌, ◌*◌, ◌≡◌, refl, ap, ◌∙◌, Bool, true, false, not, ◌&&◌, Option, none, some,
  List, [], ◌∷◌, arith, all, keep, take, ltb, is_some, Result, ok, bind_result, ◌>>◌, pure,
  throw_if, bad_gateway,
}
use rive_backend.Base.Text.{Text, is_blank}
use rive_backend.Db.{Prisma, IsPrisma, tables, tables-IsPrisma, on_every_db}
use rive_backend.Schema.{Order}
use rive_backend.Store.{Store, World}
use rive_backend.Audit.{record_audit}
use rive_backend.Orders.Frames.{SameBusiness, SameBusiness-trans, Frames}
use rive_backend.Orders.Ledger.{IsSound}
use rive_backend.Orders.Linked.{Linked, is_well_linked}
use rive_backend.Payment.Gateway.{Gateway, truthy_or}
use rive_backend.Payment.Calls.{ShopRun}
use rive_backend.Payment.Linked.Runs.{ShopRun-Linked}
use rive_backend.Payment.Listing.{
  Summary, a_day, by_creation, insert_by_creation, is_candidate, no_summary, note_unlinked,
  one_more_unlinked, record_audit_once, sort_one, sort_out,
}
use rive_backend.Payment.Reconcile.{check_all, reconcile_payments}

-- No payment is linked to the order.
abbrev is_unlinked : Order → Bool
is_unlinked o = not (is_some o.paymob_transaction_id)

candidate-is_unlinked :
    (since : ℕ) (o : Order)
    → is_candidate since false o ≡ true
    → is_well_linked o ≡ true
    → is_unlinked o ≡ true
unfolding is_candidate
candidate-is_unlinked since o h well = ground arith

all-keep :
    (p q q' : Order → Bool) (os : List Order)
    → ((o : Order) → p o ≡ true → q o ≡ true → q' o ≡ true)
    → all q os ≡ true
    → all q' (keep p os) ≡ true
all-keep p q q' [] gives h = refl
all-keep p q q' (o ∷ os) gives h = ground (arith, gives o, all-keep p q q' os gives)

all-insert :
    (q : Order → Bool) (o : Order) (os : List Order)
    → q o ≡ true
    → all q os ≡ true
    → all q (insert_by_creation o os) ≡ true
all-insert q o [] h k = ground arith
all-insert q o (p ∷ ps) h k = ground (arith, all-insert q o ps)

all-by_creation :
    (q : Order → Bool) (os : List Order) → all q os ≡ true → all q (by_creation os) ≡ true
all-by_creation q [] h = refl
all-by_creation q (o ∷ os) h =
    all-insert q o (by_creation os) (ground arith) (all-by_creation q os (ground arith))

all-take : (q : Order → Bool) (n : ℕ) (os : List Order) → all q os ≡ true → all q (take n os) ≡ true
all-take q zero os h = refl
all-take q (suc n) [] h = refl
all-take q (suc n) (o ∷ os) h = ground (arith, all-take q n os)

-- The reconciliation returns; it has asked Paymob nothing and repaired nothing.
abbrev pub IsIdle : Store → Result Summary × Store → Type 0
IsIdle s result =
    (r : Summary) × (t : Store) × (result ≡ (ok r, t))
    × (r.attempted ≡ 0)
    × (r.checked ≡ 0)
    × (r.repaired ≡ 0)
    × SameBusiness s t

module _ (w : World) (g : Gateway) where
  note_unlinked-Frames : (o : Order) → Frames (note_unlinked tables w g o)
  unfolding note_unlinked record_audit_once record_audit
  note_unlinked-Frames o s = ground arith

  note_unlinked-ok : (o : Order) (s : Store) → (note_unlinked tables w g o s).0 ≡ ok tt
  unfolding note_unlinked record_audit_once record_audit
  note_unlinked-ok o s = ground arith

  no_transaction : (x : Option Text) → not (is_some x) ≡ true → truthy_or x none ≡ none
  no_transaction none h = refl
  no_transaction (some x) h = ground arith

  sort_out-step :
      (o : Order) (os : List Order) (sum : Summary) (s : Store)
      → is_unlinked o ≡ true
      → sort_out tables w g (o ∷ os) sum s
        ≡ sort_out tables w g os
            (one_more_unlinked tables w g o sum)
            (note_unlinked tables w g o s).1
  unfolding sort_out sort_one
  sort_out-step o os sum s h =
      ap (λ x. sort_one tables w g o (sort_out tables w g os) sum x s)
        (no_transaction o.paymob_transaction_id h)
      ∙ ap
          (λ r.
            bind_result r (note_unlinked tables w g o s).1
              (λ _. sort_out tables w g os (one_more_unlinked tables w g o sum)))
          (note_unlinked-ok o s)

  -- A list of orders that no payment is linked to has none to ask Paymob about.
  sort_out-is_unlinked :
      (os : List Order) (sum : Summary) (s : Store)
      → all is_unlinked os ≡ true
      → (r : Summary) × (t : Store) × (sort_out tables w g os sum s ≡ (ok ([], r), t))
        × (r.attempted ≡ sum.attempted)
        × (r.checked ≡ sum.checked)
        × (r.repaired ≡ sum.repaired)
        × SameBusiness s t
  unfolding sort_out
  sort_out-is_unlinked [] sum s h = (
    sum,
    s,
    refl,
    refl,
    refl,
    refl,
    record { orders = refl; variants = refl; coupons = refl; events = refl },
  )
  sort_out-is_unlinked (o ∷ os) sum s h =
      let first : is_unlinked o ≡ true = ground arith in
      let rest : all is_unlinked os ≡ true = ground arith in
      let (r, t, done, attempted, checked, repaired, same) =
        sort_out-is_unlinked os (one_more_unlinked tables w g o sum)
          (note_unlinked tables w g o s).1 rest in
      (
        r,
        t,
        sort_out-step o os sum s first ∙ done,
        attempted,
        checked,
        repaired,
        SameBusiness-trans (note_unlinked-Frames o s) same,
      )

  finish :
      (r : Summary) (t : Store)
      → r.attempted ≡ 0
      → (throw_if
              (ltb 0 r.attempted && ltb r.attempted (r.failed_checks * 2))
              (bad_gateway "Paymob reconciliation failed")
            >> pure r)
          t
        ≡ (ok r, t)
  finish r t h = rw h refl

  candidates-is_unlinked :
      (since : ℕ) (s : Store)
      → Linked s.orders
      → all is_unlinked (take 200 (by_creation (keep (is_candidate since false) s.orders))) ≡ true
  candidates-is_unlinked since s linked =
      all-take is_unlinked 200 (by_creation (keep (is_candidate since false) s.orders)) (
        all-by_creation is_unlinked (keep (is_candidate since false) s.orders) (
          all-keep (is_candidate since false) is_well_linked is_unlinked s.orders
            (candidate-is_unlinked since) linked))

  reconcile_payments-IsIdle :
      (days : ℕ) (s : Store)
      → is_blank g.api_key ≡ false
      → Linked s.orders
      → IsIdle s (reconcile_payments tables w g days false s)
  unfolding reconcile_payments check_all
  reconcile_payments-IsIdle days s key linked =
      let os = take 200 (by_creation (keep (is_candidate (w.now - days * a_day) false) s.orders)) in
      let (r, t, done, attempted, checked, repaired, same) =
        sort_out-is_unlinked os no_summary s
          (candidates-is_unlinked (w.now - days * a_day) s linked) in
      (r, t, rw (key, done) (finish r t attempted), attempted, checked, repaired, same)

abbrev FindsNothing : Prisma → Type 0
FindsNothing db =
    (c : ℕ) (s t : Store)
    → ShopRun db s t
    → IsSound c s
    → Linked s.orders
    → (w : World) (g : Gateway) (days : ℕ) → is_blank g.api_key ≡ false
    → IsIdle t (reconcile_payments db w g days false t)

tables-FindsNothing : FindsNothing tables
tables-FindsNothing c s t run sound linked w g days key =
    reconcile_payments-IsIdle w g days t key
      (ShopRun-Linked tables tables-IsPrisma c s t run sound linked)

-- The reconciliation without `audit` never finds anything to do. Over a database that keeps to its
-- documentation, after whatever sequence of order calls, checkouts, webhooks and refunds from sound
-- books in which no payment is linked to an order that is by cash on delivery, pending, cancelled or
-- expired, and with a key for Paymob configured: it returns, has asked Paymob about no transaction,
-- has checked and repaired nothing, and leaves orders, stock, coupons and payment events alone.
pub ShopRun-IsIdle :
    (db : Prisma)
    → IsPrisma db
    → (c : ℕ) (s t : Store) → ShopRun db s t
    → IsSound c s
    → Linked s.orders
    → (w : World) (g : Gateway) (days : ℕ) → is_blank g.api_key ≡ false
    → IsIdle t (reconcile_payments db w g days false t)
ShopRun-IsIdle = on_every_db FindsNothing tables-FindsNothing
