-- ===== src/Payment/Events.antt =====
-- What `handleWebhook` of src/payment/paymob.service.ts does to an order, after it has recorded the
-- payment event, leaves the recorded events alone.
use rive_backend.Base.{
  ℕ, ◌≡◌, refl, Bool, true, false, Option, none, some, List, [], ◌∷◌, ◌∙◌, ◌==◌, if◌then◌else◌, not,
  Result, ok, err, bind_result, ◌>>=◌, ◌>>◌, gets, modify, pure, throw_if, or_throw, Option-cases,
  inl, inr, not_found, conflict, arith,
}
use rive_backend.Base.Text.{Text}
use rive_backend.Db.{Prisma}
use rive_backend.Schema.{Order, OrderItem}
use rive_backend.Store.{Store, World, M}
use rive_backend.Agent.Events.{Actor}
use rive_backend.Orders.Status.{OrderStatus, same_status, assert_transition}
use rive_backend.Orders.Emit.{
  find_order, find_order_details_by_id, emit_status_changed, order_items,
}
use rive_backend.Orders.Frames.{
  Frames, Frames-bind, Frames-pure, Frames-or_throw, find_order_details_by_id-Frames,
  emit_status_changed-Frames,
}
use rive_backend.Orders.Cancel.{
  with_orders, given_up, default_actor, is_open_reservation, release_coupon, release_coupon_of,
  restore_item, restore_items, release_holdings, cancel_pending_order_in_transaction,
}
use rive_backend.Orders.Pay.{is_unpaid, marked_paid, pay_found, mark_paid_in_transaction}
use rive_backend.Payment.Gateway.{Gateway, Notice}
use rive_backend.Payment.Webhook.{
  link_transaction, emit_succeeded, emit_failed, audit_ignored, settle_success, settle_failure,
  settle_notice, is_cod_order, is_success, paid, cancelled, ignored_cod,
}
use rive_backend.Payment.Books.{emit_succeeded-Frames, emit_failed-Frames, audit_ignored-Frames}

abbrev pub KeepsEvents : {A : Type 0} → M A → Type 0
KeepsEvents m = (s : Store) → (m s).1.paymob_events ≡ s.paymob_events

bind_result-events :
    {A B : Type 0} (r : Result A) (t : Store) (f : A → M B)
    → ((a : A) → KeepsEvents (f a))
    → (bind_result r t f).1.paymob_events ≡ t.paymob_events
bind_result-events (ok a) t f h = h a t
bind_result-events (err e) t f h = refl

bind-events :
    {A B : Type 0} (m : M A) (f : A → M B)
    → KeepsEvents m
    → ((a : A) → KeepsEvents (f a))
    → KeepsEvents (m >>= f)
bind-events m f h k s = bind_result-events (m s).0 (m s).1 f k ∙ h s

frame-events : {A : Type 0} (m : M A) → Frames m → KeepsEvents m
frame-events m frames s = (frames s).events

if-events :
    {A : Type 0} (b : Bool) (m n : M A)
    → KeepsEvents m
    → KeepsEvents n
    → KeepsEvents (if b then m else n)
if-events true m n h k = h
if-events false m n h k = k

-- ... of two results
either-events :
    {A : Type 0} (e : Store) (b : Bool) (r q : A × Store)
    → r.1.paymob_events ≡ e.paymob_events
    → q.1.paymob_events ≡ e.paymob_events
    → (if b then r else q).1.paymob_events ≡ e.paymob_events
either-events e true r q h k = h
either-events e false r q h k = k

module _ (db : Prisma) (w : World) where
  pay_found-events : (id : ℕ) (user : Option ℕ) (o : Order) → KeepsEvents (pay_found db w id user o)
  unfolding pay_found assert_transition
  pay_found-events id user o =
      let count = λ (s : Store). db.matched (is_unpaid id) s.orders in
      let put =
        λ (s : Store). with_orders s (db.update_many (is_unpaid id) (marked_paid user) s.orders) in
      let tell =
        emit_status_changed db w id o.status (default_actor user) none
        >> find_order_details_by_id db w id in
      let check = λ (updated : ℕ).
        throw_if (not (updated == 1)) (conflict "Order reservation has expired") >> tell in
      bind-events (assert_transition o.status OrderStatus.paid)
        (λ _. gets count >>= λ updated. modify put >> check updated) (λ s. refl)
        (λ _.
          bind-events (gets count) (λ updated. modify put >> check updated) (λ s. refl)
            (λ updated.
              bind-events (modify put) (λ _. check updated) (λ s. refl)
                (λ _.
                  bind-events (throw_if (not (updated == 1)) _) (λ _. tell) (λ s. refl)
                    (λ _. frame-events tell (
                      Frames-bind (emit_status_changed db w id o.status (default_actor user) none)
                        (λ _. find_order_details_by_id db w id)
                        (emit_status_changed-Frames db w id o.status (default_actor user) none)
                        (λ _. find_order_details_by_id-Frames db w id))))))

  mark_paid_in_transaction-events :
      (id : ℕ) (user : Option ℕ) → KeepsEvents (mark_paid_in_transaction db w id user)
  unfolding mark_paid_in_transaction
  mark_paid_in_transaction-events id user =
      let pay = λ (o : Order).
        if same_status o.status OrderStatus.paid
        then find_order_details_by_id db w id
        else pay_found db w id user o in
      bind-events (gets (find_order db w id))
        (λ found. or_throw found (not_found "Order not found") >>= pay) (λ s. refl)
        (λ found.
          bind-events (or_throw found (not_found "Order not found")) pay
            (frame-events (or_throw found (not_found "Order not found"))
              (Frames-or_throw found (not_found "Order not found")))
            (λ o.
              if-events (same_status o.status OrderStatus.paid) (find_order_details_by_id db w id)
                (pay_found db w id user o)
                (frame-events (find_order_details_by_id db w id)
                  (find_order_details_by_id-Frames db w id))
                (pay_found-events id user o)))

  release_coupon-events : (c : Option ℕ) → KeepsEvents (release_coupon db w c)
  unfolding release_coupon
  release_coupon-events none s = refl
  release_coupon-events (some c) s = refl

  release_coupon_of-events : (id : ℕ) → KeepsEvents (release_coupon_of db w id)
  unfolding release_coupon_of
  release_coupon_of-events id s = elim (Option-cases (find_order db w id s)) [
    | inl e ↦ rw (e, release_coupon_of) refl
    | inr (o, e) ↦ rw (e, release_coupon_of) (release_coupon-events o.coupon_id s)
  ]

  restore_item-events : (i : OrderItem) → KeepsEvents (restore_item db w i)
  unfolding restore_item
  restore_item-events i s = ground arith

  restore_items-events : (is : List OrderItem) → KeepsEvents (restore_items db w is)
  unfolding restore_items
  restore_items-events [] s = refl
  restore_items-events (i ∷ is) s =
      bind-events (restore_item db w i) (λ _. restore_items db w is) (restore_item-events i)
        (λ _. restore_items-events is) s

  release_holdings-events : (id : ℕ) → KeepsEvents (release_holdings db w id)
  unfolding release_holdings
  release_holdings-events id =
      bind-events (release_coupon_of db w id)
        (λ _. gets (order_items db w id) >>= restore_items db w) (release_coupon_of-events id)
        (λ _.
          bind-events (gets (order_items db w id)) (restore_items db w) (λ s. refl)
            restore_items-events)

  cancel_pending-events :
      (id : ℕ) (status : OrderStatus) (now user : Option ℕ) (actor : Actor)
      → KeepsEvents (cancel_pending_order_in_transaction db w id status now user actor)
  unfolding cancel_pending_order_in_transaction
  cancel_pending-events id status now user actor s =
      let hit = is_open_reservation id now in
      let s' = with_orders s (db.update_many hit (given_up status user) s.orders) in
      let tell = emit_status_changed db w id OrderStatus.pending actor none >> pure true in
      either-events s (db.matched hit s.orders == 0) (pure false s')
        ((release_holdings db w id >> tell) s') refl
        (bind-events (release_holdings db w id) (λ _. tell) (release_holdings-events id)
          (λ _. frame-events tell (
            Frames-bind (emit_status_changed db w id OrderStatus.pending actor none)
              (λ _. pure true) (emit_status_changed-Frames db w id OrderStatus.pending actor none)
              (λ _. Frames-pure true)))
          s')

module _ (db : Prisma) (w : World) (g : Gateway) where
  link_transaction-events :
      (id : ℕ) (transaction_id : Text) → KeepsEvents (link_transaction db w g id transaction_id)
  unfolding link_transaction
  link_transaction-events id transaction_id s = ground arith

  settle_success-events :
      (id : ℕ) (transaction_id : Text) (n : Notice)
      → KeepsEvents (settle_success db w g id transaction_id n)
  unfolding settle_success
  settle_success-events id transaction_id n =
      let tell = emit_succeeded db w g id transaction_id (g.rounded n.amount_cents) in
      let link = link_transaction db w g id transaction_id in
      bind-events (mark_paid_in_transaction db w id none)
        (λ o. link >> (tell >> pure (paid o.id o.status)))
        (mark_paid_in_transaction-events db w id none)
        (λ o.
          bind-events link (λ _. tell >> pure (paid o.id o.status))
            (link_transaction-events id transaction_id)
            (λ _.
              bind-events tell (λ _. pure (paid o.id o.status))
                (frame-events tell
                  (emit_succeeded-Frames db w g id transaction_id (g.rounded n.amount_cents)))
                (λ _ s. refl)))

  settle_failure-events :
      (id : ℕ) (transaction_id : Text) (n : Notice)
      → KeepsEvents (settle_failure db w g id transaction_id n)
  unfolding settle_failure
  settle_failure-events id transaction_id n =
      let tell = emit_failed db w g id transaction_id n in
      let cancel =
        cancel_pending_order_in_transaction db w id OrderStatus.cancelled none none Actor.system in
      bind-events tell (λ _. cancel >> pure (cancelled id))
        (frame-events tell (emit_failed-Frames db w g id transaction_id n))
        (λ _.
          bind-events cancel (λ _. pure (cancelled id))
            (cancel_pending-events db w id OrderStatus.cancelled none none Actor.system)
            (λ _ s. refl))

  pub settle_notice-events :
      (id : ℕ) (transaction_id : Text) (n : Notice)
      → KeepsEvents (settle_notice db w g id transaction_id n)
  unfolding settle_notice
  settle_notice-events id transaction_id n s =
      let audit = audit_ignored db w g id transaction_id in
      if-events (is_cod_order db w g (find_order db w id s)) (audit >> pure (ignored_cod id))
        (if is_success n
          then settle_success db w g id transaction_id n
          else settle_failure db w g id transaction_id n)
        (bind-events audit (λ _. pure (ignored_cod id))
          (frame-events audit (audit_ignored-Frames db w g id transaction_id)) (λ _ t. refl))
        (if-events (is_success n) (settle_success db w g id transaction_id n)
          (settle_failure db w g id transaction_id n) (settle_success-events id transaction_id n)
          (settle_failure-events id transaction_id n))
        s
