-- ===== src/Orders/Linked/Services.antt =====
-- The calls of `OrdersService` but `create` keep payments linked to the orders that were paid for.
use rive_backend.Base.{
  ℕ, not, ◌&&◌, Option, none, List, [], ◌∷◌, ltb, if◌then◌else◌, ◌>>=◌, ◌>>◌, modify, pure,
  throw_if, transaction, not_found, conflict, bad_request, inr, keep, some,
}
use rive_backend.Base.Text.{Text}
use rive_backend.Db.{tables, update_where}
use rive_backend.Schema.{Order}
use rive_backend.Store.{Store, World, payment_change, shipping_update}
use rive_backend.Audit.{record_audit}
use rive_backend.Agent.Events.{Actor}
use rive_backend.Orders.Status.{OrderStatus, PaymentStatus, same_status, is_cod, is_paid, includes}
use rive_backend.Orders.Emit.{has_id, is_live, find_order, find_order_details_by_id, kick_agent}
use rive_backend.Orders.Frames.{
  Frames-bind, Frames-pure, Frames-if, find_order_details_by_id-Frames, record_audit-Frames,
  kick_agent-Frames,
}
use rive_backend.Orders.Cancel.{
  with_orders, default_actor, cancel_pending_order_in_transaction, cancel_cod_order_in_transaction,
  cancel_pending_order, expire_order, expire_each, expire_pending_reservations, has_lapsed,
  cancellable_statuses, cancel_found, cancel_numbered, find_to_cancel, cancel_by_order_number,
}
use rive_backend.Orders.Pay.{
  collected, mark_paid_in_transaction, mark_paid, tell_collected, collect, collect_in_transaction,
  mark_cod_collected,
}
use rive_backend.Orders.Admin.{UpdateOrderShippingDto, reshipped, update_shipping}
use rive_backend.Orders.Ledger.Services.{tell_collected-Frames, kick_and_return-Frames}
use rive_backend.Orders.Preserve.{
  Preserves, Preserves-bind, Preserves-frame, Preserves-if, Preserves-unless, Preserves-or_throw,
  Preserves-transaction, Preserves-audited,
}
use rive_backend.Orders.Linked.{Linked, is_well_linked, all-update}
use rive_backend.Orders.Linked.Steps.{
  cancel_pending_order_in_transaction-Linked, cancel_cod_order_in_transaction-Linked, read-Linked,
  details-Linked, mark_paid_in_transaction-Linked,
}

module _ (w : World) where
  pub mark_paid-Linked : (id : ℕ) (user : Option ℕ) → Preserves Linked (mark_paid tables w id user)
  unfolding mark_paid
  mark_paid-Linked id user =
      Preserves-transaction Linked (mark_paid_in_transaction tables w id user)
        (mark_paid_in_transaction-Linked w id user)

  pub cancel_pending_order-Linked :
      (id : ℕ) (status : OrderStatus) (user : Option ℕ)
      → Preserves Linked (cancel_pending_order tables w id status user)
  unfolding cancel_pending_order
  cancel_pending_order-Linked id status user =
      Preserves-transaction Linked
        (cancel_pending_order_in_transaction tables w id status none user (default_actor user))
        (cancel_pending_order_in_transaction-Linked w id status none user (default_actor user))

  pub expire_order-Linked : (id now : ℕ) → Preserves Linked (expire_order tables w id now)
  unfolding expire_order
  expire_order-Linked id now =
      Preserves-transaction Linked
        (cancel_pending_order_in_transaction tables w id OrderStatus.expired (some now) none
          Actor.system)
        (cancel_pending_order_in_transaction-Linked w id OrderStatus.expired (some now) none
          Actor.system)

  expire_each-Linked :
      (os : List Order) (now count : ℕ) → Preserves Linked (expire_each tables w os now count)
  unfolding expire_each
  expire_each-Linked [] now count s q = q
  expire_each-Linked (o ∷ os) now count s q =
      Preserves-bind Linked (expire_order tables w o.id now) _ (expire_order-Linked o.id now)
        (λ expired. expire_each-Linked os now _) s q

  pub expire_pending_reservations-Linked :
      (now : ℕ) → Preserves Linked (expire_pending_reservations tables w now)
  unfolding expire_pending_reservations
  expire_pending_reservations-Linked now s q =
      let lapsed =
        keep
          (λ (o : Order).
            same_status o.status OrderStatus.pending
            && has_lapsed now o.reservation_expires_at
            && is_live o)
          s.orders in
      let rest =
        λ (count : ℕ). (if ltb 0 count then kick_agent tables w else pure tt) >> pure count in
      Preserves-bind Linked (expire_each tables w lapsed now 0) rest
        (expire_each-Linked lapsed now 0)
        (λ count. Preserves-frame Linked (rest count) (
          Frames-bind (if ltb 0 count then kick_agent tables w else pure tt) (λ _. pure count)
            (Frames-if _ _ _ (kick_agent-Frames tables w) (Frames-pure tt))
            (λ _. Frames-pure count)))
        s q

  collect-Linked :
      (id : ℕ) (user : Option ℕ) (o : Order) → Preserves Linked (collect tables w id user o)
  unfolding collect
  collect-Linked id user o =
      let put = λ (s : Store). with_orders s (update_where (has_id id) (collected user) s.orders) in
      let audit =
        record_audit tables w user "order.cod_collected" (inr id)
          (payment_change o.payment_status PaymentStatus.paid) in
      let tell = λ (details : Order). tell_collected tables w user details >> pure details in
      let rest = audit >> (find_order_details_by_id tables w id >>= tell) in
      Preserves-bind Linked (modify put) (λ _. rest)
        (λ s q. all-update is_well_linked (has_id id) (collected user) s.orders (λ r _ h. h) q)
        (λ _. Preserves-frame Linked rest (
          Frames-bind audit (λ _. find_order_details_by_id tables w id >>= tell)
            (record_audit-Frames tables w user _ _ _)
            (λ _.
              Frames-bind (find_order_details_by_id tables w id) tell
                (find_order_details_by_id-Frames tables w id)
                (λ d.
                  Frames-bind (tell_collected tables w user d) (λ _. pure d)
                    (tell_collected-Frames w 0 0 user d) (λ _. Frames-pure d)))))

  pub mark_cod_collected-Linked :
      (id : ℕ) (user : Option ℕ) → Preserves Linked (mark_cod_collected tables w id user)
  unfolding mark_cod_collected collect_in_transaction
  mark_cod_collected-Linked id user =
      let details = find_order_details_by_id tables w id in
      let settle =
        λ (o : Order). if is_paid o.payment_status then details else collect tables w id user o in
      let e1 = bad_request "Order is not a COD order" in
      let e2 =
        bad_request
          "COD collection can only be performed for orders in SHIPPED or DELIVERED status" in
      let unsent = λ (o : Order).
        not (same_status o.status OrderStatus.shipped)
        && not (same_status o.status OrderStatus.delivered) in
      let guarded = λ (o : Order).
        throw_if (not (is_cod o.payment_method)) e1 >> (throw_if (unsent o) e2 >> settle o) in
      Preserves-audited Linked (collect_in_transaction tables w id user) (
        read-Linked w (find_order tables w id) (not_found "Order not found") guarded (λ o.
          Preserves-unless Linked (not (is_cod o.payment_method)) e1
            (throw_if (unsent o) e2 >> settle o)
            (λ _. Preserves-unless Linked (unsent o) e2 (settle o) (λ _.
              Preserves-if Linked (is_paid o.payment_status) details (collect tables w id user o)
                (λ _. details-Linked w id) (λ _. collect-Linked id user o)))))

  cancel_found-Linked : (o : Order) → Preserves Linked (cancel_found tables w o)
  unfolding cancel_found
  cancel_found-Linked o =
      let cod =
        cancel_cod_order_in_transaction tables w o.id OrderStatus.cancelled none Actor.customer in
      let pending =
        cancel_pending_order_in_transaction tables w o.id OrderStatus.cancelled none none
          Actor.customer in
      let e1 = conflict "Order cannot be cancelled in current status" in
      let e2 = conflict "Only pending orders can be cancelled" in
      let e3 = conflict "Order cannot be cancelled" in
      let b1 = not (includes cancellable_statuses o.status) in
      let b2 = not (same_status o.status OrderStatus.pending) in
      Preserves-bind Linked
        (if is_cod o.payment_method then (throw_if b1 e1 >> cod) else (throw_if b2 e2 >> pending))
        (λ cancelled. throw_if (not cancelled) e3 >> find_order_details_by_id tables w o.id)
        (Preserves-if Linked (is_cod o.payment_method) (throw_if b1 e1 >> cod)
          (throw_if b2 e2 >> pending)
          (λ _. Preserves-unless Linked b1 e1 cod (λ _.
            cancel_cod_order_in_transaction-Linked w o.id OrderStatus.cancelled none
              Actor.customer))
          (λ _. Preserves-unless Linked b2 e2 pending (λ _.
            cancel_pending_order_in_transaction-Linked w o.id OrderStatus.cancelled none none
              Actor.customer)))
        (λ cancelled.
          Preserves-unless Linked (not cancelled) e3 (find_order_details_by_id tables w o.id)
            (λ _. details-Linked w o.id))

  pub cancel_by_order_number-Linked :
      (number : Text) → Preserves Linked (cancel_by_order_number tables w number)
  unfolding cancel_by_order_number cancel_numbered
  cancel_by_order_number-Linked number =
      Preserves-bind Linked (transaction (cancel_numbered tables w number))
        (λ result. kick_agent tables w >> pure result)
        (Preserves-transaction Linked (cancel_numbered tables w number) (λ s q.
          Preserves-or_throw Linked (find_to_cancel tables w number s)
            (not_found "Order was not found") (cancel_found tables w) cancel_found-Linked s q))
        (λ result.
          Preserves-frame Linked (kick_agent tables w >> pure result)
            (kick_and_return-Frames w 0 0 result))

  pub update_shipping-Linked :
      (id : ℕ) (dto : UpdateOrderShippingDto) (user : Option ℕ)
      → Preserves Linked (update_shipping tables w id dto user)
  unfolding update_shipping
  update_shipping-Linked id dto user =
      let put =
        λ (s : Store). with_orders s (update_where (has_id id) (reshipped dto user) s.orders) in
      let audit = record_audit tables w user "order.shipping.update" (inr id) shipping_update in
      let write =
        λ (existing : Order). modify put >> (audit >> pure (reshipped dto user existing)) in
      read-Linked w (find_order tables w id) (not_found "Order was not found") write (λ existing.
        Preserves-bind Linked (modify put) (λ _. audit >> pure (reshipped dto user existing))
          (λ s q.
            all-update is_well_linked (has_id id) (reshipped dto user) s.orders (λ r _ h. h) q)
          (λ _. Preserves-frame Linked (audit >> pure (reshipped dto user existing)) (
            Frames-bind audit (λ _. pure (reshipped dto user existing))
              (record_audit-Frames tables w user _ _ _)
              (λ _. Frames-pure (reshipped dto user existing)))))
