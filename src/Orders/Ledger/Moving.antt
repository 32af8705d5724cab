-- ===== src/Orders/Ledger/Moving.antt =====
-- The transaction of `transitionStatus` keeps the books.
use rive_backend.Base.{
  ℕ, ◌≡◌, refl, not, Bool, true, false, Option, none, some, arith, ◌>>◌, pure, ◌>>=◌, ◌∙◌, throw_if,
  Failure, conflict,
}
use rive_backend.Db.{tables, update_where}
use rive_backend.Schema.{Order}
use rive_backend.Store.{Store, World}
use rive_backend.Orders.Status.{OrderStatus, is_refused, same_status, assert_transition, is_cod}
use rive_backend.Orders.Emit.{has_id, find_order, find_order_details_by_id, emit_status_changed}
use rive_backend.Orders.Frames.{
  Frames-bind, Frames-pure, emit_status_changed-Frames, find_order_details_by_id-Frames,
}
use rive_backend.Orders.Cancel.{
  with_orders, default_actor, cancel_cod_order_in_transaction, cancel_pending_order_in_transaction,
}
use rive_backend.Orders.Pay.{
  moved_to, mark_paid_in_transaction, give_up, move, transition_found, transition_in_transaction,
}
use rive_backend.Orders.Ledger.{
  is_given_up, IsSound, Keeps, Keeps-refl, Ensures, Ensures-bind, Ensures-if, Ensures-unless,
  KeepsBooks, KeepsBooks-bind, KeepsBooks-if,
}
use rive_backend.Orders.Ledger.Cancelling.{
  cancel_pending_order_in_transaction-keeps, cancel_cod_order_in_transaction-keeps,
}
use rive_backend.Orders.Ledger.Paying.{
  IsMild-by, read-is-written, update-keeps, update_and_tell-keeps, stays_open, read_or_fail-keeps,
  details-keeps, mark_paid_in_transaction-keeps,
}

-- An order that moves on was not given up, and does not become so on this branch.
moves_from :
    (current next : OrderStatus)
    → is_refused current next ≡ false
    → same_status current next ≡ false
    → is_given_up current ≡ false
unfolding is_refused
moves_from current next h k = ground arith

module _ (w : World) (v c id : ℕ) where
  pub throw_if-keeps : (b : Bool) (e : Failure) → KeepsBooks v c (throw_if b e)
  throw_if-keeps true e s sound = tt
  throw_if-keeps false e s sound = Keeps-refl v sound

  give_up-keeps :
      (next : OrderStatus) (actor_user : Option ℕ) (before : Order)
      → is_given_up next ≡ true
      → KeepsBooks v c (give_up tables w id next actor_user before)
  unfolding give_up
  give_up-keeps next actor_user before gone =
      KeepsBooks-bind v c _ (λ _. find_order_details_by_id tables w id)
        (KeepsBooks-if v c (is_cod before.payment_method) _ _
          (KeepsBooks-bind v c
            (cancel_cod_order_in_transaction tables w id next actor_user (default_actor actor_user))
            (λ cancelled. throw_if (not cancelled) (conflict "Order cannot be cancelled"))
            (cancel_cod_order_in_transaction-keeps w v c id next actor_user _ gone)
            (λ cancelled. throw_if-keeps _ _))
          (KeepsBooks-bind v c
            (cancel_pending_order_in_transaction tables w id next none actor_user
              (default_actor actor_user))
            (λ released. throw_if (not released) (conflict "Order is no longer pending"))
            (cancel_pending_order_in_transaction-keeps w v c id next none actor_user _ gone)
            (λ released. throw_if-keeps _ _)))
        (λ _. details-keeps w v c id)

  pub has_id-id : (r : Order) → has_id id r ≡ true → r.id ≡ id
  has_id-id r h = ground arith

  move-keeps :
      (next : OrderStatus) (actor_user : Option ℕ) (before : Order) (s : Store)
      → IsSound c s
      → find_order tables w id s ≡ some before
      → is_given_up before.status ≡ false
      → is_given_up next ≡ false
      → Ensures (λ _ t. Keeps v c s t) (move tables w id next actor_user before s)
  unfolding move
  move-keeps next actor_user before s sound read open_before open_after =
      let s' = with_orders s (update_where (has_id id) (moved_to next actor_user) s.orders) in
      let actor = default_actor actor_user in
      update_and_tell-keeps w v c id s s'
        (find_order_details_by_id tables w id >>= λ after.
          emit_status_changed tables w id before.status actor none >> pure after)
        (update-keeps w v c id (has_id id) (moved_to next actor_user) s has_id-id
          (IsMild-by (moved_to next actor_user) (λ r. (refl, refl, refl, refl)))
          (λ r found.
            open_after
            ∙ stays_open w v c id r before
                (read-is-written w v c id (has_id id) s before r has_id-id sound read found)
                open_before)
          sound)
        (Frames-bind (find_order_details_by_id tables w id)
          (λ after. emit_status_changed tables w id before.status actor none >> pure after)
          (find_order_details_by_id-Frames tables w id)
          (λ after.
            Frames-bind (emit_status_changed tables w id before.status actor none) (λ _. pure after)
              (emit_status_changed-Frames tables w id before.status actor none)
              (λ _. Frames-pure after)))

  transition_found-keeps :
      (next : OrderStatus) (actor_user : Option ℕ) (before : Order) (s : Store)
      → IsSound c s
      → find_order tables w id s ≡ some before
      → same_status before.status next ≡ false
      → Ensures (λ _ t. Keeps v c s t) (transition_found tables w id next actor_user before s)
  unfolding transition_found assert_transition
  transition_found-keeps next actor_user before s sound read differs =
      Ensures-unless _ (is_refused before.status next) _ _ s (λ allowed.
        Ensures-if _ (is_given_up next) (give_up tables w id next actor_user before) _ s
          (λ gone. give_up-keeps next actor_user before gone s sound)
          (λ stays.
            Ensures-if _ (same_status next OrderStatus.paid)
              (mark_paid_in_transaction tables w id actor_user)
              (move tables w id next actor_user before) s
              (λ paid. mark_paid_in_transaction-keeps w v c id actor_user s sound)
              (λ other.
                move-keeps next actor_user before s sound read
                  (moves_from before.status next allowed differs) stays)))

  pub transition_in_transaction-keeps :
      (next : OrderStatus) (actor_user : Option ℕ)
      → KeepsBooks v c (transition_in_transaction tables w id next actor_user)
  unfolding transition_in_transaction
  transition_in_transaction-keeps next actor_user s sound =
      read_or_fail-keeps w v c id _ _ s (λ before read.
        Ensures-bind (λ _ t. Keeps v c s t) _ _ (λ after. pure (before, after))
          (Ensures-if _ (same_status before.status next) (find_order_details_by_id tables w id)
            (transition_found tables w id next actor_user before) s
            (λ same. details-keeps w v c id s sound)
            (λ differs. transition_found-keeps next actor_user before s sound read differs))
          (λ after t kept. kept))
