-- ===== src/Orders/Linked/Moving.antt =====
-- `transitionStatus` keeps payments linked to the orders that were paid for.
use rive_backend.Base.{
  ℕ, ◌≡◌, refl, not, Bool, ◌||◌, Option, none, if◌then◌else◌, ◌>>=◌, ◌>>◌, modify, pure, throw_if,
  transaction, not_found, conflict, false, subst, sym,
}
use rive_backend.Db.{tables, update_where}
use rive_backend.Schema.{Order}
use rive_backend.Store.{Store, World, M}
use rive_backend.Orders.Status.{OrderStatus, same_status, is_cod, is_refused, assert_transition}
use rive_backend.Orders.Emit.{
  has_id, find_order, find_order_details_by_id, emit_status_changed, kick_agent,
}
use rive_backend.Orders.Frames.{
  Frames-bind, Frames-pure, find_order_details_by_id-Frames, emit_status_changed-Frames,
  kick_agent-Frames,
}
use rive_backend.Orders.Cancel.{
  with_orders, default_actor, cancel_pending_order_in_transaction, cancel_cod_order_in_transaction,
}
use rive_backend.Orders.Pay.{
  moved_to, mark_paid_in_transaction, give_up, move, transition_found, transition_in_transaction,
  report_transition, transition_status,
}
use rive_backend.Orders.Ledger.Services.{report_transition-Frames}
use rive_backend.Orders.Preserve.{
  Preserves, Preserves-bind, Preserves-frame, Preserves-if, Preserves-unless, Preserves-transaction,
}
use rive_backend.Orders.Linked.{
  Linked, is_well_linked, is_unsettled, all-update, moved-Linked, moved_settled,
}
use rive_backend.Orders.Linked.Steps.{
  cancel_pending_order_in_transaction-Linked, cancel_cod_order_in_transaction-Linked, read-Linked,
  details-Linked, mark_paid_in_transaction-Linked,
}

module _ (w : World) where
  -- A cancellation, and the check of its count.
  checked-Linked :
      (b : M Bool) (e : Bool → M (Unit {0}))
      → Preserves Linked b
      → ((r : Bool) → (s : Store) → (e r s).1 ≡ s)
      → Preserves Linked (b >>= e)
  checked-Linked b e h same =
      Preserves-bind Linked b e h (λ r s q. subst (λ t. Linked t.orders) (sym (same r s)) q)

  give_up-Linked :
      (id : ℕ) (next : OrderStatus) (user : Option ℕ) (before : Order)
      → Preserves Linked (give_up tables w id next user before)
  unfolding give_up
  give_up-Linked id next user before =
      let cod =
        cancel_cod_order_in_transaction tables w id next user (default_actor user) >>= λ cancelled.
        throw_if (not cancelled) (conflict "Order cannot be cancelled") in
      let pending =
        cancel_pending_order_in_transaction tables w id next none user (default_actor user)
        >>= λ released. throw_if (not released) (conflict "Order is no longer pending") in
      Preserves-bind Linked (if is_cod before.payment_method then cod else pending)
        (λ _. find_order_details_by_id tables w id)
        (Preserves-if Linked (is_cod before.payment_method) cod pending
          (λ _.
            checked-Linked
              (cancel_cod_order_in_transaction tables w id next user (default_actor user))
              (λ cancelled. throw_if (not cancelled) (conflict "Order cannot be cancelled"))
              (cancel_cod_order_in_transaction-Linked w id next user (default_actor user))
              (λ r s. refl))
          (λ _.
            checked-Linked
              (cancel_pending_order_in_transaction tables w id next none user (default_actor user))
              (λ released. throw_if (not released) (conflict "Order is no longer pending"))
              (cancel_pending_order_in_transaction-Linked w id next none user (default_actor user))
              (λ r s. refl)))
        (λ _. details-Linked w id)

  move-Linked :
      (id : ℕ) (next : OrderStatus) (user : Option ℕ) (before : Order)
      → is_unsettled next ≡ false
      → Preserves Linked (move tables w id next user before)
  unfolding move
  move-Linked id next user before settled =
      let put =
        λ (s : Store). with_orders s (update_where (has_id id) (moved_to next user) s.orders) in
      let tell = λ (after : Order).
        emit_status_changed tables w id before.status (default_actor user) none >> pure after in
      let rest = find_order_details_by_id tables w id >>= tell in
      Preserves-bind Linked (modify put) (λ _. rest)
        (λ s q.
          all-update is_well_linked (has_id id) (moved_to next user) s.orders
            (λ r _ h. moved-Linked next user r settled h) q)
        (λ _. Preserves-frame Linked rest (
          Frames-bind (find_order_details_by_id tables w id) tell
            (find_order_details_by_id-Frames tables w id)
            (λ after.
              Frames-bind (emit_status_changed tables w id before.status (default_actor user) none)
                (λ _. pure after)
                (emit_status_changed-Frames tables w id before.status (default_actor user) none)
                (λ _. Frames-pure after))))

  transition_found-Linked :
      (id : ℕ) (next : OrderStatus) (user : Option ℕ) (before : Order)
      → same_status before.status next ≡ false
      → Preserves Linked (transition_found tables w id next user before)
  unfolding transition_found assert_transition
  transition_found-Linked id next user before differs =
      let gone = same_status next OrderStatus.cancelled || same_status next OrderStatus.expired in
      let paid = same_status next OrderStatus.paid in
      let pay = mark_paid_in_transaction tables w id user in
      let other = move tables w id next user before in
      Preserves-unless Linked (is_refused before.status next) (conflict "Cannot transition order")
        (if gone then give_up tables w id next user before else if paid then pay else other)
        (λ allowed.
          Preserves-if Linked gone (give_up tables w id next user before)
            (if paid then pay else other) (λ _. give_up-Linked id next user before)
            (λ stays.
              Preserves-if Linked paid pay other (λ _. mark_paid_in_transaction-Linked w id user)
                (λ _.
                  move-Linked id next user before
                    (moved_settled before.status next allowed differs stays))))

  pub transition_status-Linked :
      (id : ℕ) (next : OrderStatus) (user : Option ℕ)
      → Preserves Linked (transition_status tables w id next user)
  unfolding transition_status transition_in_transaction
  transition_status-Linked id next user =
      let details = find_order_details_by_id tables w id in
      let step = λ (before : Order).
        if same_status before.status next
        then details
        else transition_found tables w id next user before in
      let both = λ (before : Order). step before >>= λ after. pure (before, after) in
      let tell = λ (r : Order × Order). report_transition tables w user r.0 r.1 >> pure r.1 in
      Preserves-bind Linked (transaction (transition_in_transaction tables w id next user))
        (λ r. kick_agent tables w >> tell r)
        (Preserves-transaction Linked (transition_in_transaction tables w id next user) (
          read-Linked w (find_order tables w id) (not_found "Order not found") both (λ before.
            Preserves-bind Linked (step before) (λ after. pure (before, after))
              (Preserves-if Linked (same_status before.status next) details
                (transition_found tables w id next user before) (λ _. details-Linked w id)
                (λ differs. transition_found-Linked id next user before differs))
              (λ after s q. q))))
        (λ r. Preserves-frame Linked (kick_agent tables w >> tell r) (
          Frames-bind (kick_agent tables w) (λ _. tell r) (kick_agent-Frames tables w)
            (λ _.
              Frames-bind (report_transition tables w user r.0 r.1) (λ _. pure r.1)
                (report_transition-Frames w 0 0 user r.0 r.1) (λ _. Frames-pure r.1))))
