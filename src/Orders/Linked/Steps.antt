-- ===== src/Orders/Linked/Steps.antt =====
-- The cancellations and the payment of an order, as steps of a transaction, keep payments linked to
-- the orders that were paid for.
use rive_backend.Base.{
  ℕ, ◌≡◌, refl, not, Option, none, some, List, [], ◌∷◌, ◌==◌, if◌then◌else◌, ◌>>=◌, ◌>>◌, gets,
  modify, pure, throw_if, or_throw, not_found, conflict, keep, length, inr, Option-cases, inl,
  Failure, true, false, arith,
}
use rive_backend.Db.{tables, update_where}
use rive_backend.Schema.{Order, OrderItem}
use rive_backend.Store.{Store, World, M}
use rive_backend.Agent.Events.{Actor}
use rive_backend.Orders.Status.{OrderStatus, same_status, is_refused, assert_transition}
use rive_backend.Orders.Emit.{
  find_order, find_order_details_by_id, order_items, emit_status_changed,
}
use rive_backend.Orders.Frames.{
  Frames-bind, Frames-pure, find_order_details_by_id-Frames, emit_status_changed-Frames,
}
use rive_backend.Orders.Cancel.{
  with_orders, given_up, default_actor, is_open_reservation, is_open_cod, release_coupon,
  release_coupon_of, restore_item, restore_items, release_holdings, emit_from_previous,
  cancel_pending_order_in_transaction, cancel_cod_order_in_transaction,
}
use rive_backend.Orders.Pay.{is_unpaid, marked_paid, pay_found, mark_paid_in_transaction}
use rive_backend.Orders.Preserve.{
  Preserves, Preserves-bind, Preserves-same, Preserves-frame, Preserves-if, Preserves-either,
  Preserves-unless, Preserves-or_throw,
}
use rive_backend.Orders.Linked.{
  Linked, is_well_linked, all-update, paid-Linked, reservation-Linked, cod-Linked,
}

module _ (w : World) where
  -- What gives stock and coupons back writes no order.
  release_coupon-same :
      (k : Option ℕ) (s : Store) → (release_coupon tables w k s).1.orders ≡ s.orders
  unfolding release_coupon
  release_coupon-same none s = refl
  release_coupon-same (some k) s = refl

  release_coupon_of-same :
      (id : ℕ) (s : Store) → (release_coupon_of tables w id s).1.orders ≡ s.orders
  unfolding release_coupon_of
  release_coupon_of-same id s = elim (Option-cases (find_order tables w id s)) [
    | inl e ↦ rw (e, release_coupon_of) refl
    | inr (o, e) ↦ rw (e, release_coupon_of) (release_coupon-same o.coupon_id s)
  ]

  restore_item-same : (i : OrderItem) (s : Store) → (restore_item tables w i s).1.orders ≡ s.orders
  unfolding restore_item
  restore_item-same i s = ground arith

  restore_items-Linked : (is : List OrderItem) → Preserves Linked (restore_items tables w is)
  unfolding restore_items
  restore_items-Linked [] s q = q
  restore_items-Linked (i ∷ is) s q =
      Preserves-bind Linked (restore_item tables w i) (λ _. restore_items tables w is)
        (Preserves-same Linked (restore_item tables w i) (restore_item-same i))
        (λ _. restore_items-Linked is) s q

  release_holdings-Linked : (id : ℕ) → Preserves Linked (release_holdings tables w id)
  unfolding release_holdings
  release_holdings-Linked id =
      Preserves-bind Linked (release_coupon_of tables w id)
        (λ _. gets (order_items tables w id) >>= restore_items tables w)
        (Preserves-same Linked (release_coupon_of tables w id) (release_coupon_of-same id))
        (λ _.
          Preserves-bind Linked (gets (order_items tables w id)) (restore_items tables w) (λ s q. q)
            restore_items-Linked)

  tell-Linked :
      {A : Type 0} (id : ℕ) (old : OrderStatus) (actor : Actor) (a : A)
      → Preserves Linked (emit_status_changed tables w id old actor none >> pure a)
  tell-Linked id old actor a =
      Preserves-frame Linked (emit_status_changed tables w id old actor none >> pure a) (
        Frames-bind (emit_status_changed tables w id old actor none) (λ _. pure a)
          (emit_status_changed-Frames tables w id old actor none) (λ _. Frames-pure a))

  pub cancel_pending_order_in_transaction-Linked :
      (id : ℕ) (status : OrderStatus) (now user : Option ℕ) (actor : Actor)
      → Preserves Linked (cancel_pending_order_in_transaction tables w id status now user actor)
  unfolding cancel_pending_order_in_transaction
  cancel_pending_order_in_transaction-Linked id status now user actor s q =
      let hit = is_open_reservation id now in
      let s' = with_orders s (update_where hit (given_up status user) s.orders) in
      let tell = emit_status_changed tables w id OrderStatus.pending actor none >> pure true in
      let q' =
        all-update is_well_linked hit (given_up status user) s.orders
          (reservation-Linked id now status user) q in
      Preserves-either Linked (length (keep hit s.orders) == 0) (pure false s')
        ((release_holdings tables w id >> tell) s') (λ _. q')
        (λ _.
          Preserves-bind Linked (release_holdings tables w id) (λ _. tell)
            (release_holdings-Linked id) (λ _. tell-Linked id OrderStatus.pending actor true) s' q')

  emit_from_previous-Linked :
      (id : ℕ) (previous : Option Order) (actor : Actor)
      → Preserves Linked (emit_from_previous tables w id previous actor >> pure true)
  unfolding emit_from_previous
  emit_from_previous-Linked id none actor s q = q
  emit_from_previous-Linked id (some p) actor s q = tell-Linked id p.status actor true s q

  pub cancel_cod_order_in_transaction-Linked :
      (id : ℕ) (status : OrderStatus) (user : Option ℕ) (actor : Actor)
      → Preserves Linked (cancel_cod_order_in_transaction tables w id status user actor)
  unfolding cancel_cod_order_in_transaction
  cancel_cod_order_in_transaction-Linked id status user actor s q =
      let hit = is_open_cod id in
      let s' = with_orders s (update_where hit (given_up status user) s.orders) in
      let previous = if w.has_agent then find_order tables w id s else none in
      let tell = emit_from_previous tables w id previous actor >> pure true in
      let q' =
        all-update is_well_linked hit (given_up status user) s.orders (cod-Linked id status user)
          q in
      Preserves-either Linked (length (keep hit s.orders) == 0) (pure false s')
        ((release_holdings tables w id >> tell) s') (λ _. q')
        (λ _.
          Preserves-bind Linked (release_holdings tables w id) (λ _. tell)
            (release_holdings-Linked id) (λ _. emit_from_previous-Linked id previous actor) s' q')

  -- A search, and what is done with what it finds.
  pub read-Linked :
      {A B : Type 0} (f : Store → Option A) (e : Failure) (k : A → M B)
      → ((a : A) → Preserves Linked (k a))
      → Preserves Linked (gets f >>= λ found. or_throw found e >>= k)
  read-Linked f e k h =
      Preserves-bind Linked (gets f) (λ found. or_throw found e >>= k) (λ s q. q)
        (λ found. Preserves-or_throw Linked found e k h)

  pub details-Linked : (id : ℕ) → Preserves Linked (find_order_details_by_id tables w id)
  details-Linked id =
      Preserves-frame Linked (find_order_details_by_id tables w id)
        (find_order_details_by_id-Frames tables w id)

  pay_found-Linked :
      (id : ℕ) (user : Option ℕ) (o : Order) → Preserves Linked (pay_found tables w id user o)
  unfolding pay_found assert_transition
  pay_found-Linked id user o =
      let put =
        λ (s : Store). with_orders s (update_where (is_unpaid id) (marked_paid user) s.orders) in
      let count = λ (s : Store). length (keep (is_unpaid id) s.orders) in
      let tell =
        emit_status_changed tables w id o.status (default_actor user) none
        >> find_order_details_by_id tables w id in
      let gone = conflict "Order reservation has expired" in
      let check = λ (updated : ℕ). throw_if (not (updated == 1)) gone >> tell in
      Preserves-unless Linked (is_refused o.status OrderStatus.paid)
        (conflict "Cannot transition order") (gets count >>= λ updated. modify put >> check updated)
        (λ _.
          Preserves-bind Linked (gets count) (λ updated. modify put >> check updated) (λ s q. q)
            (λ updated.
              Preserves-bind Linked (modify put) (λ _. check updated)
                (λ s q.
                  all-update is_well_linked (is_unpaid id) (marked_paid user) s.orders
                    (λ r _ h. paid-Linked user r h) q)
                (λ _. Preserves-unless Linked (not (updated == 1)) gone tell (λ _.
                  Preserves-frame Linked tell (
                    Frames-bind (emit_status_changed tables w id o.status (default_actor user) none)
                      (λ _. find_order_details_by_id tables w id)
                      (emit_status_changed-Frames tables w id o.status (default_actor user) none)
                      (λ _. find_order_details_by_id-Frames tables w id))))))

  pub mark_paid_in_transaction-Linked :
      (id : ℕ) (user : Option ℕ) → Preserves Linked (mark_paid_in_transaction tables w id user)
  unfolding mark_paid_in_transaction
  mark_paid_in_transaction-Linked id user =
      let pay = λ (o : Order).
        if same_status o.status OrderStatus.paid
        then find_order_details_by_id tables w id
        else pay_found tables w id user o in
      read-Linked (find_order tables w id) (not_found "Order not found") pay (λ o.
        Preserves-if Linked (same_status o.status OrderStatus.paid)
          (find_order_details_by_id tables w id) (pay_found tables w id user o)
          (λ _. details-Linked id) (λ _. pay_found-Linked id user o))
