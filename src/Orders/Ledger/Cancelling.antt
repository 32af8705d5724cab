-- ===== src/Orders/Ledger/Cancelling.antt =====
-- Giving an order up keeps the books: its pieces go back to the stock and its coupon's use off the
-- count, in both of the code's cancellations.
use rive_backend.Base.{
  ℕ, ◌+◌, ◌≡◌, refl, Bool, true, false, Option, none, some, arith, ◌==◌, if◌then◌else◌, same_key,
  sum_by, keep, length, any, Bool-cases, inl, inr, find, ◌>>◌, pure, ◌∙◌, ap,
}
use rive_backend.Db.{tables, update_where}
use rive_backend.Db.Keys.{
  update_where-none, find_of_match, sum_by-update, update_where-IsUnique, find-holds, find-update,
  any-update, find-and_not,
}
use rive_backend.Schema.{Order}
use rive_backend.Store.{Store, World, M}
use rive_backend.Agent.Events.{Actor}
use rive_backend.Orders.Status.{OrderStatus}
use rive_backend.Orders.Emit.{has_id, quantity_of, find_order, order_items, emit_status_changed}
use rive_backend.Orders.Frames.{Frames, Frames-pure, emit_status_changed-Frames}
use rive_backend.Orders.Cancel.{
  given_up, with_orders, is_open_reservation, is_open_cod, release_coupon, release_coupon_of,
  restore_items, release_holdings, cancel_pending_order_in_transaction,
  cancel_cod_order_in_transaction, emit_from_previous,
}
use rive_backend.Orders.Ledger.{
  stock_at, use_of, held, is_given_up, is_deleted, IsSound, Keeps, Keeps-refl, Keeps-frame,
  Keeps-trans, Ensures, Ensures-bind, Ensures-map, KeepsBooks, KeepsBooks-bind, KeepsBooks-frame,
}
use rive_backend.Orders.Ledger.Release.{
  Restored, Released, restore_items-lem, release_coupon-lem, release_coupon-ok,
}

-- An update by `data` of the order that `hit` selects: an open order is given up.
module _ (w : World) (v c id : ℕ) (status : OrderStatus) (gone : is_given_up status ≡ true)
    (updated_by : Option ℕ) (hit : Order → Bool) (fixes : (r : Order) → hit r ≡ true → r.id ≡ id)
    (open_order : (r : Order) → hit r ≡ true → is_given_up r.status ≡ false) where
  abbrev after_update : Store → Store
  after_update s = with_orders s (update_where hit (given_up status updated_by) s.orders)

  -- The order that the later reads of the transaction find.
  find-after :
      (s : Store) (r : Order)
      → IsSound c s
      → find hit s.orders ≡ some r
      → find (has_id id) (after_update s).orders ≡ some (given_up status updated_by r)
  find-after s r sound found =
      find-update (λ (o : Order). o.id) hit (given_up status updated_by) id s.orders r fixes
        (λ o. refl) sound.order_keys found

  live-after : (s : Store) → IsSound c s → any is_deleted (after_update s).orders ≡ false
  live-after s sound =
      any-update hit is_deleted (given_up status updated_by) s.orders (λ o. refl)
      ∙ sound.none_deleted

  release_coupon_of-after :
      (s : Store) (r : Order)
      → IsSound c s
      → find hit s.orders ≡ some r
      → release_coupon_of tables w id (after_update s)
        ≡ release_coupon tables w r.coupon_id (after_update s)
  unfolding release_coupon_of find_order
  release_coupon_of-after s r sound found = rw (
    find-and_not (has_id id) is_deleted (after_update s).orders (live-after s sound),
    find-after s r sound found,
    release_coupon_of,
  )

  order_items-after :
      (s t : Store) (r : Order)
      → IsSound c s
      → find hit s.orders ≡ some r
      → t.orders ≡ (after_update s).orders
      → order_items tables w id t ≡ r.items
  unfolding order_items
  order_items-after s t r sound found same = rw (same, find-after s r sound found, order_items)

  -- The sums over the orders, before and after.
  held-after :
      (s : Store) (r : Order)
      → IsSound c s
      → find hit s.orders ≡ some r
      → sum_by (held v) (after_update s).orders + quantity_of v r.items ≡ sum_by (held v) s.orders
  held-after s r sound found = ground (
    arith,
    gone,
    open_order r (find-holds hit s.orders r found),
    sum_by-update (λ (o : Order). o.id) hit (given_up status updated_by) (held v) id s.orders r
        fixes sound.order_keys found,
  )

  uses-after :
      (s : Store) (r : Order)
      → IsSound c s
      → find hit s.orders ≡ some r
      → sum_by (use_of c) (after_update s).orders + (if same_key r.coupon_id c then 1 else 0)
        ≡ sum_by (use_of c) s.orders
  uses-after s r sound found = ground (
    arith,
    gone,
    open_order r (find-holds hit s.orders r found),
    sum_by-update (λ (o : Order). o.id) hit (given_up status updated_by) (use_of c) id s.orders r
        fixes sound.order_keys found,
  )

  settled :
      (s t u : Store) (r : Order)
      → IsSound c s
      → find hit s.orders ≡ some r
      → Released c r.coupon_id (after_update s) t
      → Restored v r.items t u
      → Keeps v c s u
  settled s t u r sound found coupon stock = record {
    sound = record {
      order_keys =
          rw (stock.orders, coupon.orders)
            (update_where-IsUnique (λ (o : Order). o.id) hit (given_up status updated_by) s.orders
              (λ o. refl) sound.order_keys);
      variant_keys = stock.variant_keys;
      coupon_keys = rw stock.coupons coupon.coupon_keys;
      none_deleted = rw (stock.orders, coupon.orders) (live-after s sound);
      balanced =
          rw (stock.coupons, stock.orders, coupon.orders)
            (omega (arith, coupon.count, uses-after s r sound found, sound.balanced));
    };
    same_pieces =
        rw (stock.orders, coupon.orders)
          (omega (
            arith,
            stock.stock,
            ap (sum_by (stock_at v)) coupon.variants,
            held-after s r sound found,
          ));
  }

  pub release_holdings-keeps :
      (s : Store) (r : Order)
      → IsSound c s
      → find hit s.orders ≡ some r
      → Ensures (λ _ t. Keeps v c s t) (release_holdings tables w id (after_update s))
  unfolding release_holdings
  release_holdings-keeps s r sound found =
      let t = (release_coupon tables w r.coupon_id (after_update s)).1 in
      let released =
        release_coupon-lem w c r.coupon_id (after_update s) sound.coupon_keys
          (omega (arith, uses-after s r sound found, sound.balanced)) in
      rw
        (
          release_coupon_of-after s r sound found,
          release_coupon-ok w c r.coupon_id (after_update s),
          order_items-after s t r sound found released.orders,
        )
        (Ensures-map (λ _ u. Restored v r.items t u) _ (restore_items tables w r.items t)
          (restore_items-lem w v r.items t (rw released.variants sound.variant_keys))
          (λ _ u stock. settled s t u r sound found released stock))

reservation-id :
    (id : ℕ) (now : Option ℕ) (r : Order) → is_open_reservation id now r ≡ true → r.id ≡ id
unfolding is_open_reservation
reservation-id id now r h = ground arith

reservation-open :
    (id : ℕ) (now : Option ℕ) (r : Order)
    → is_open_reservation id now r ≡ true
    → is_given_up r.status ≡ false
unfolding is_open_reservation
reservation-open id now r h = ground arith

cod-id : (id : ℕ) (r : Order) → is_open_cod id r ≡ true → r.id ≡ id
unfolding is_open_cod
cod-id id r h = ground arith

cod-open : (id : ℕ) (r : Order) → is_open_cod id r ≡ true → is_given_up r.status ≡ false
unfolding is_open_cod
cod-open id r h = ground arith

module _ (w : World) (v c : ℕ) where
  -- What follows the release: an event and the answer.
  released_keeps :
      (s s' : Store) (release emit : M (Unit {0}))
      → Ensures (λ _ t. Keeps v c s t) (release s')
      → Frames emit
      → Ensures (λ _ t. Keeps v c s t) ((release >> (emit >> pure true)) s')
  released_keeps s s' release emit kept frames =
      Ensures-bind (λ _ t. Keeps v c s t) _ (release s') (λ _. emit >> pure true) kept
        (λ _ t kept.
          Ensures-map (λ _ u. Keeps v c t u) _ ((emit >> pure true) t)
            (KeepsBooks-bind v c emit (λ _. pure true) (KeepsBooks-frame v c emit frames)
              (λ _ s sound. Keeps-refl v sound) t kept.sound)
            (λ _ u. Keeps-trans kept))

  unmatched-keeps :
      (hit : Order → Bool) (g : Order → Order) (s : Store)
      → IsSound c s
      → length (keep hit s.orders) ≡ 0
      → Keeps v c s (with_orders s (update_where hit g s.orders))
  unmatched-keeps hit g s sound e =
      Keeps-frame v
        (record {
          orders = update_where-none hit g s.orders e;
          variants = refl;
          coupons = refl;
          events = refl;
        })
        sound

  pub cancel_pending_order_in_transaction-keeps :
      (id : ℕ) (status : OrderStatus) (now updated_by : Option ℕ) (actor : Actor)
      → is_given_up status ≡ true
      → KeepsBooks v c (cancel_pending_order_in_transaction tables w id status now updated_by actor)
  unfolding cancel_pending_order_in_transaction
  cancel_pending_order_in_transaction-keeps id status now updated_by actor gone s sound =
      let hit = is_open_reservation id now in
      let s' = with_orders s (update_where hit (given_up status updated_by) s.orders) in
      elim (Bool-cases (length (keep hit s.orders) == 0)) [
        | inl e ↦
            rw (e, cancel_pending_order_in_transaction)
              (unmatched-keeps hit (given_up status updated_by) s sound (ground arith))
        | inr e ↦
            let (r, found) = find_of_match hit s.orders e in
            rw (e, cancel_pending_order_in_transaction)
              (released_keeps s s' (release_holdings tables w id)
                (emit_status_changed tables w id OrderStatus.pending actor none)
                (release_holdings-keeps w v c id status gone updated_by hit (reservation-id id now)
                  (reservation-open id now) s r sound found)
                (emit_status_changed-Frames tables w id OrderStatus.pending actor none))
      ]

  emit_from_previous-Frames :
      (id : ℕ) (previous : Option Order) (actor : Actor)
      → Frames (emit_from_previous tables w id previous actor)
  unfolding emit_from_previous
  emit_from_previous-Frames id none actor = Frames-pure tt
  emit_from_previous-Frames id (some p) actor =
      emit_status_changed-Frames tables w id p.status actor none

  pub cancel_cod_order_in_transaction-keeps :
      (id : ℕ) (status : OrderStatus) (updated_by : Option ℕ) (actor : Actor)
      → is_given_up status ≡ true
      → KeepsBooks v c (cancel_cod_order_in_transaction tables w id status updated_by actor)
  unfolding cancel_cod_order_in_transaction
  cancel_cod_order_in_transaction-keeps id status updated_by actor gone s sound =
      let previous = if w.has_agent then find_order tables w id s else none in
      let hit = is_open_cod id in
      let s' = with_orders s (update_where hit (given_up status updated_by) s.orders) in
      elim (Bool-cases (length (keep hit s.orders) == 0)) [
        | inl e ↦
            rw (e, cancel_cod_order_in_transaction)
              (unmatched-keeps hit (given_up status updated_by) s sound (ground arith))
        | inr e ↦
            let (r, found) = find_of_match hit s.orders e in
            rw (e, cancel_cod_order_in_transaction)
              (released_keeps s s' (release_holdings tables w id)
                (emit_from_previous tables w id previous actor)
                (release_holdings-keeps w v c id status gone updated_by hit (cod-id id)
                  (cod-open id) s r sound found)
                (emit_from_previous-Frames id _ actor))
      ]
