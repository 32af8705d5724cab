-- ===== src/Orders/Expiry.antt =====
-- What `expireOrder` of src/orders/orders.service.ts leaves alone.
use rive_backend.Base.{
  ℕ, ◌≡◌, ap, sym, ◌∙◌, Bool, true, false, ◌&&◌, Option, none, some, arith, ok, ◌==◌, keep, length,
  Bool-cases, inl, inr, eq_of_==,
}
use rive_backend.Db.{Prisma, IsPrisma, tables, on_every_db}
use rive_backend.Db.Keys.{IsUnique, update_where-none, find_of_match, find-holds, find-by_key}
use rive_backend.Schema.{Order}
use rive_backend.Store.{Store, World}
use rive_backend.Orders.Status.{OrderStatus, same_status}
use rive_backend.Orders.Emit.{find_order, has_id, is_live}
use rive_backend.Orders.Cancel.{
  expire_order, cancel_pending_order_in_transaction, is_open_reservation, has_lapsed, given_up,
}

open_key : (id now : ℕ) (r : Order) → is_open_reservation id (some now) r ≡ true → r.id ≡ id
unfolding is_open_reservation
open_key id now r h = ground (arith, eq_of_== r.id id)

and_right : (a b c : Bool) → (a && b && c) ≡ true → (b && c) ≡ true
and_right true b c h = h
and_right false b c h = cc

-- The test on the order that was found.
lapsed_of : ℕ → Option Order → Bool
lapsed_of now none = false
lapsed_of now (some o) =
    same_status o.status OrderStatus.pending && has_lapsed now o.reservation_expires_at

true_false : {A : Type 0} → true ≡ false → A
true_false h = cc

open_lapsed :
    (id now : ℕ) (r : Order)
    → is_open_reservation id (some now) r ≡ true
    → (same_status r.status OrderStatus.pending && has_lapsed now r.reservation_expires_at) ≡ true
unfolding is_open_reservation
open_lapsed id now r h =
    and_right (has_id id r) (same_status r.status OrderStatus.pending)
      (has_lapsed now r.reservation_expires_at) h

live_key : (id : ℕ) (r : Order) → (has_id id r && is_live r) ≡ true → r.id ≡ id
live_key id r h = ground (arith, eq_of_== r.id id)

-- No row is an open reservation of the key if the order with the key is none.
none_open :
    (w : World) (id now : ℕ) (s : Store) (o : Order)
    → IsUnique (λ (x : Order). x.id) s.orders
    → find_order tables w id s ≡ some o
    → (same_status o.status OrderStatus.pending && has_lapsed now o.reservation_expires_at) ≡ false
    → length (keep (is_open_reservation id (some now)) s.orders) ≡ 0
unfolding find_order lapsed_of
none_open w id now s o unique found spared =
    elim (Bool-cases (length (keep (is_open_reservation id (some now)) s.orders) == 0)) [
      | inl e ↦ eq_of_== _ 0 e
      | inr e ↦
          let (r, hit) = find_of_match (is_open_reservation id (some now)) s.orders e in
          let same : some r ≡ some o =
            sym (
              find-by_key (λ (x : Order). x.id) (is_open_reservation id (some now)) id s.orders r
                (open_key id now) unique hit)
            ∙ find-by_key (λ (x : Order). x.id) (λ (x : Order). has_id id x && is_live x) id
                s.orders o (live_key id) unique found in
          true_false (
            sym (open_lapsed id now r (find-holds _ s.orders r hit))
            ∙ (ap (lapsed_of now) same ∙ spared))
    ]

abbrev Spares : Prisma → Type 0
Spares db =
    (w : World) (id now : ℕ) (s : Store) (o : Order)
    → IsUnique (λ (x : Order). x.id) s.orders
    → find_order db w id s ≡ some o
    → (same_status o.status OrderStatus.pending && has_lapsed now o.reservation_expires_at) ≡ false
    → expire_order db w id now s ≡ (ok false, s)

tables-Spares : Spares tables
unfolding expire_order cancel_pending_order_in_transaction
tables-Spares w id now s o unique found spared =
    let nothing = none_open w id now s o unique found spared in
    rw (
      nothing,
      update_where-none (is_open_reservation id (some now)) (given_up OrderStatus.expired none)
          s.orders nothing,
    )

-- Where the keys of orders are unique, `expireOrder` returns false and leaves everything as it is
-- for an order that is not pending or whose reservation has not lapsed; a reservation without an
-- expiry does not lapse.
pub expire_order-spares :
    (db : Prisma)
    → IsPrisma db
    → (w : World) (id now : ℕ) (s : Store) (o : Order) → IsUnique (λ (x : Order). x.id) s.orders
    → find_order db w id s ≡ some o
    → (same_status o.status OrderStatus.pending && has_lapsed now o.reservation_expires_at) ≡ false
    → expire_order db w id now s ≡ (ok false, s)
expire_order-spares = on_every_db Spares tables-Spares
