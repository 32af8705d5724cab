-- ===== src/Orders/Cancel.antt =====
-- Giving an order up: `cancelPendingOrderInTransaction` and `cancelCodOrderInTransaction` of
-- src/orders/orders.service.ts, and the expiry of reservations.
use rive_backend.Base.{
  ℕ, ◌+◌, ◌-◌, Bool, true, false, not, ◌&&◌, Option, none, some, List, [], ◌∷◌, ◌==◌, ltb, leb,
  if◌then◌else◌, pure, throw_if, modify, ◌>>=◌, ◌>>◌, gets, or_throw, internal, not_found, conflict,
  transaction,
}
use rive_backend.Base.Text.{Text, text_eq}
use rive_backend.Db.{Prisma}
use rive_backend.Schema.{Order, OrderItem, Variant, Coupon}
use rive_backend.Store.{Store, World, M}
use rive_backend.Orders.Status.{OrderStatus, same_status, includes, is_cod}
use rive_backend.Orders.Emit.{
  is_live, has_id, find_order, find_order_details_by_id, order_items, emit_status_changed,
  kick_agent,
}
use rive_backend.Agent.Events.{Actor}

-- `updatedById ? "admin" : "system"`
abbrev pub default_actor : Option ℕ → Actor
default_actor none = Actor.system
default_actor (some u) = Actor.admin

-- `...(updatedById ? { updatedById } : {})`
abbrev pub or_keep : Option ℕ → Option ℕ → Option ℕ
or_keep none old = old
or_keep (some u) old = some u

-- `reservationExpiresAt: { lte: now }`, false where the column is null.
abbrev pub has_lapsed : ℕ → Option ℕ → Bool
has_lapsed now none = false
has_lapsed now (some t) = leb t now

abbrev lapsed_if : Option ℕ → Option ℕ → Bool
lapsed_if none expiry = true
lapsed_if (some now) expiry = has_lapsed now expiry

-- The `where` clauses of the two cancellations.
unfoldable pub is_open_reservation : ℕ → Option ℕ → Order → Bool
is_open_reservation id now o =
    has_id id o
    && same_status o.status OrderStatus.pending
    && lapsed_if now o.reservation_expires_at

unfoldable pub cancellable_statuses : List OrderStatus
cancellable_statuses = OrderStatus.pending ∷ OrderStatus.confirmed ∷ OrderStatus.processing ∷ []

unfoldable pub is_open_cod : ℕ → Order → Bool
unfolding cancellable_statuses
is_open_cod id o = has_id id o && is_cod o.payment_method && includes cancellable_statuses o.status

-- Their `data`.
abbrev pub given_up : OrderStatus → Option ℕ → Order → Order
given_up status updated_by o = record o {
  status = status;
  reservation_expires_at = none;
  updated_by_id = or_keep updated_by o.updated_by_id;
}

-- What an `updateMany` on orders leaves.
abbrev pub with_orders : Store → List Order → Store
with_orders s orders = record s { orders = orders }

module _ (db : Prisma) (w : World) where
  -- `usageCount: { decrement: 1 }`, of a count that is positive
  unfoldable pub release_coupon : Option ℕ → M (Unit {0})
  release_coupon none = pure tt
  release_coupon (some c) = modify (λ s. record s {
    coupons =
        db.update_many (λ (k : Coupon). k.id == c && ltb 0 k.usage_count)
          (λ (k : Coupon). record k { usage_count = k.usage_count - 1 }) s.coupons;
  })

  -- The coupon of the order that `findUnique({ select: { couponId } })` finds.
  unfoldable pub release_coupon_of : ℕ → M (Unit {0})
  unfolding release_coupon find_order
  release_coupon_of id s = elim (find_order db w id s) [
    | none ↦ pure tt s
    | some o ↦ release_coupon o.coupon_id s
  ]

  -- `productVariant.update`, which throws where there is no such variant
  unfoldable pub restore_item : OrderItem → M (Unit {0})
  restore_item i s =
      let hit = λ (v : Variant). v.id == i.product_variant_id in
      (throw_if (db.matched hit s.variants == 0) (internal "Record to update not found")
          >> modify (λ t. record t {
            variants =
                db.update_many hit (λ (v : Variant). record v { stock = v.stock + i.quantity })
                  t.variants;
          }))
        s

  unfoldable pub restore_items : List OrderItem → M (Unit {0})
  unfolding restore_item
  restore_items [] = pure tt
  restore_items (i ∷ is) = restore_item i >> restore_items is

  -- The coupon and the stock of an order that was given up go back.
  unfoldable pub release_holdings : ℕ → M (Unit {0})
  unfolding release_coupon_of restore_items order_items
  release_holdings id = do
    release_coupon_of id
    items ← gets (order_items db w id)
    restore_items items

  unfoldable pub cancel_pending_order_in_transaction :
      ℕ → OrderStatus → Option ℕ → Option ℕ → Actor → M Bool
  unfolding is_open_reservation release_holdings emit_status_changed
  cancel_pending_order_in_transaction id status now updated_by actor s =
      let hit = is_open_reservation id now in
      let s' = with_orders s (db.update_many hit (given_up status updated_by) s.orders) in
      if db.matched hit s.orders == 0
      then pure false s'
      else (release_holdings id
            >> (emit_status_changed db w id OrderStatus.pending actor none >> pure true))
          s'

  -- `if (previous)`: the event of a cancellation, from the status that was read before.
  unfoldable pub emit_from_previous : ℕ → Option Order → Actor → M (Unit {0})
  unfolding emit_status_changed
  emit_from_previous id none actor = pure tt
  emit_from_previous id (some p) actor = emit_status_changed db w id p.status actor none

  unfoldable pub cancel_cod_order_in_transaction : ℕ → OrderStatus → Option ℕ → Actor → M Bool
  unfolding is_open_cod release_holdings emit_from_previous find_order
  cancel_cod_order_in_transaction id status updated_by actor s =
      let previous = if w.has_agent then find_order db w id s else none in
      let hit = is_open_cod id in
      let s' = with_orders s (db.update_many hit (given_up status updated_by) s.orders) in
      if db.matched hit s.orders == 0
      then pure false s'
      else (release_holdings id >> (emit_from_previous id previous actor >> pure true)) s'

  -- `cancelPendingOrder`
  unfoldable pub cancel_pending_order : ℕ → OrderStatus → Option ℕ → M Bool
  unfolding cancel_pending_order_in_transaction
  cancel_pending_order id status updated_by =
      transaction
        (cancel_pending_order_in_transaction id status none updated_by (default_actor updated_by))

  unfoldable pub expire_order : ℕ → ℕ → M Bool
  unfolding cancel_pending_order_in_transaction
  expire_order id now =
      transaction
        (cancel_pending_order_in_transaction id OrderStatus.expired (some now) none Actor.system)

  -- the loop of `expirePendingReservations`
  unfoldable pub expire_each : List Order → ℕ → ℕ → M ℕ
  unfolding expire_order
  expire_each [] now count = pure count
  expire_each (o ∷ os) now count = do
    expired ← expire_order o.id now
    expire_each os now (if expired then count + 1 else count)

  unfoldable pub expire_pending_reservations : ℕ → M ℕ
  unfolding expire_each kick_agent
  expire_pending_reservations now s =
      let lapsed =
        db.find_many
          (λ (o : Order).
            same_status o.status OrderStatus.pending
            && has_lapsed now o.reservation_expires_at
            && is_live o)
          s.orders in
      (expire_each lapsed now 0 >>= λ count.
      (if ltb 0 count then kick_agent db w else pure tt) >> pure count)
        s

  -- `cancelByOrderNumber`
  unfoldable pub cancel_found : Order → M Order
  unfolding cancel_cod_order_in_transaction cancel_pending_order_in_transaction
      find_order_details_by_id cancellable_statuses
  cancel_found order = do
    cancelled ←
        (if is_cod order.payment_method
          then (throw_if (not (includes cancellable_statuses order.status))
                (conflict "Order cannot be cancelled in current status")
              >> cancel_cod_order_in_transaction order.id OrderStatus.cancelled none Actor.customer)
          else (throw_if (not (same_status order.status OrderStatus.pending))
                (conflict "Only pending orders can be cancelled")
              >> cancel_pending_order_in_transaction order.id OrderStatus.cancelled none none
                  Actor.customer))
    throw_if (not cancelled) (conflict "Order cannot be cancelled")
    find_order_details_by_id db w order.id

  unfoldable pub find_to_cancel : Text → Store → Option Order
  find_to_cancel number s =
      db.find_first (λ (o : Order). text_eq o.order_number number && is_live o) s.orders

  unfoldable pub cancel_numbered : Text → M Order
  unfolding cancel_found find_to_cancel
  cancel_numbered number s =
      (or_throw (find_to_cancel number s) (not_found "Order was not found") >>= cancel_found) s

  unfoldable pub cancel_by_order_number : Text → M Order
  unfolding cancel_numbered kick_agent
  cancel_by_order_number number = do
    result ← transaction (cancel_numbered number)
    kick_agent db w
    pure result
