-- ===== src/Orders/Ledger/Paying.antt =====
-- Payments and changes of status keep the books.
use rive_backend.Base.{
  ℕ, ◌≡◌, refl, sym, not, Bool, true, false, Option, none, some, arith, ◌==◌, ap, keep, length,
  Bool-cases, Option-cases, inl, inr, find, ◌>>◌, gets, ◌>>=◌, ◌∙◌, Failure, or_throw,
}
use rive_backend.Db.{tables, update_where}
use rive_backend.Db.Keys.{
  update_where-none, find_of_match, sum_by-update, update_where-IsUnique, any-update, find-and_not,
  find-by_key,
}
use rive_backend.Schema.{Order}
use rive_backend.Store.{Store, World, M}
use rive_backend.Orders.Status.{OrderStatus, is_refused, same_status, assert_transition}
use rive_backend.Orders.Emit.{has_id, find_order, find_order_details_by_id, emit_status_changed}
use rive_backend.Orders.Frames.{
  Frames, Frames-bind, emit_status_changed-Frames, find_order_details_by_id-Frames,
}
use rive_backend.Orders.Cancel.{with_orders, default_actor}
use rive_backend.Orders.Pay.{is_unpaid, marked_paid, pay_found, mark_paid_in_transaction}
use rive_backend.Orders.Ledger.{
  use_of, held, is_given_up, is_deleted, IsSound, Keeps, Keeps-frame, Keeps-trans, Ensures,
  Ensures-map, Ensures-if, Ensures-unless, KeepsBooks, KeepsBooks-frame,
}

-- An update of one order that leaves its key, items and coupon alone, and moves it neither into
-- nor out of the statuses that give an order up.
pub record IsMild (g : Order → Order) : Type 0 where
  pub same_id : (r : Order) → (g r).id ≡ r.id
  pub same_items : (r : Order) → (g r).items ≡ r.items
  pub same_coupon : (r : Order) → (g r).coupon_id ≡ r.coupon_id
  pub same_deleted : (r : Order) → is_deleted (g r) ≡ is_deleted r

abbrev given_up_of : Option Order → Bool
given_up_of none = false
given_up_of (some o) = is_given_up o.status

pub IsMild-by :
    (g : Order → Order)
    → ((r : Order)
        → ((g r).id ≡ r.id)
          × ((g r).items ≡ r.items)
          × ((g r).coupon_id ≡ r.coupon_id)
          × (is_deleted (g r) ≡ is_deleted r))
    → IsMild g
IsMild-by g h = record {
  same_id = λ r. (h r).0;
  same_items = λ r. (h r).1;
  same_coupon = λ r. (h r).2;
  same_deleted = λ r. (h r).3;
}

module _ (w : World) (v c id : ℕ) where
  -- The order that was read is the one that an update by its key writes.
  pub read-is-written :
      (hit : Order → Bool) (s : Store) (o r : Order)
      → ((r : Order) → hit r ≡ true → r.id ≡ id)
      → IsSound c s
      → find_order tables w id s ≡ some o
      → find hit s.orders ≡ some r
      → some r ≡ some o
  unfolding find_order
  read-is-written hit s o r fixes sound read found = cc (
    find-by_key (λ (o : Order). o.id) hit id s.orders r fixes sound.order_keys found,
    find-and_not (has_id id) is_deleted s.orders sound.none_deleted,
  )

  held-mild :
      (g : Order → Order) (r : Order)
      → IsMild g
      → is_given_up (g r).status ≡ is_given_up r.status
      → held v (g r) ≡ held v r
  held-mild g r mild stays = rw (stays, mild.same_items r)

  use_of-mild :
      (g : Order → Order) (r : Order)
      → IsMild g
      → is_given_up (g r).status ≡ is_given_up r.status
      → use_of c (g r) ≡ use_of c r
  use_of-mild g r mild stays = rw (stays, mild.same_coupon r)

  pub update-keeps :
      (hit : Order → Bool) (g : Order → Order) (s : Store)
      → ((r : Order) → hit r ≡ true → r.id ≡ id)
      → IsMild g
      → ((r : Order) → find hit s.orders ≡ some r → is_given_up (g r).status ≡ is_given_up r.status)
      → IsSound c s
      → Keeps v c s (with_orders s (update_where hit g s.orders))
  update-keeps hit g s fixes mild stays sound =
      elim (Bool-cases (length (keep hit s.orders) == 0)) [
        | inl e ↦
            Keeps-frame v
              (record {
                orders = update_where-none hit g s.orders (ground arith);
                variants = refl;
                coupons = refl;
                events = refl;
              })
              sound
        | inr e ↦
            let (r, found) = find_of_match hit s.orders e in
            record {
              sound = record {
                order_keys =
                    update_where-IsUnique (λ (o : Order). o.id) hit g s.orders mild.same_id
                      sound.order_keys;
                variant_keys = sound.variant_keys;
                coupon_keys = sound.coupon_keys;
                none_deleted =
                    any-update hit is_deleted g s.orders mild.same_deleted ∙ sound.none_deleted;
                balanced = omega (
                  arith,
                  sound.balanced,
                  use_of-mild g r mild (stays r found),
                  sum_by-update (λ (o : Order). o.id) hit g (use_of c) id s.orders r fixes
                      sound.order_keys found,
                );
              };
              same_pieces = omega (
                arith,
                held-mild g r mild (stays r found),
                sum_by-update (λ (o : Order). o.id) hit g (held v) id s.orders r fixes
                    sound.order_keys found,
              );
            }
      ]

  -- A mild update, and then events.
  pub update_and_tell-keeps :
      {A : Type 0} (s s' : Store) (tell : M A)
      → Keeps v c s s'
      → Frames tell
      → Ensures (λ _ t. Keeps v c s t) (tell s')
  update_and_tell-keeps s s' tell kept frames =
      Ensures-map (λ _ u. Keeps v c s' u) _ (tell s')
        (KeepsBooks-frame v c tell frames s' kept.sound) (λ _ u. Keeps-trans kept)

  pub paid-id : (r : Order) → is_unpaid id r ≡ true → r.id ≡ id
  unfolding is_unpaid
  paid-id r h = ground arith

  -- A payment is accepted only of an order that was not given up.
  not_given_up_before :
      (current : OrderStatus)
      → is_refused current OrderStatus.paid ≡ false
      → is_given_up current ≡ false
  unfolding is_refused
  not_given_up_before current h = ground arith

  pub stays_open :
      (r o : Order) → some r ≡ some o → is_given_up o.status ≡ false → false ≡ is_given_up r.status
  stays_open r o same h = sym (ap given_up_of same ∙ h)

  pub pay_found-keeps :
      (updated_by : Option ℕ) (order : Order) (s : Store)
      → IsSound c s
      → find_order tables w id s ≡ some order
      → Ensures (λ _ t. Keeps v c s t) (pay_found tables w id updated_by order s)
  unfolding pay_found assert_transition
  pay_found-keeps updated_by order s sound read =
      let s' = with_orders s (update_where (is_unpaid id) (marked_paid updated_by) s.orders) in
      let actor = default_actor updated_by in
      Ensures-unless _ (is_refused order.status OrderStatus.paid) _ _ s (λ allowed.
        Ensures-unless _ (not (length (keep (is_unpaid id) s.orders) == 1)) _ _ s' (λ one.
          update_and_tell-keeps s s'
            (emit_status_changed tables w id order.status actor none
              >> find_order_details_by_id tables w id)
            (update-keeps (is_unpaid id) (marked_paid updated_by) s paid-id
              (IsMild-by (marked_paid updated_by) (λ r. (refl, refl, refl, refl)))
              (λ r found.
                stays_open r order
                  (read-is-written (is_unpaid id) s order r paid-id sound read found)
                  (not_given_up_before order.status allowed))
              sound)
            (Frames-bind (emit_status_changed tables w id order.status actor none)
              (λ _. find_order_details_by_id tables w id)
              (emit_status_changed-Frames tables w id order.status actor none)
              (λ _. find_order_details_by_id-Frames tables w id))))

  -- A search that the rest of the transaction depends on: the guard, or the order that was read.
  pub read_or_fail-keeps :
      {A : Type 0} (e : Failure) (k : Order → M A) (s : Store)
      → ((o : Order) → find_order tables w id s ≡ some o → Ensures (λ _ t. Keeps v c s t) (k o s))
      → Ensures
          (λ _ t. Keeps v c s t)
          ((gets (find_order tables w id) >>= λ found. or_throw found e >>= k) s)
  read_or_fail-keeps e k s h = elim (Option-cases (find_order tables w id s)) [
    | inl missing ↦ rw missing tt
    | inr (o, read) ↦ rw read (h o read)
  ]

  pub details-keeps : KeepsBooks v c (find_order_details_by_id tables w id)
  details-keeps =
      KeepsBooks-frame v c (find_order_details_by_id tables w id)
        (find_order_details_by_id-Frames tables w id)

  pub mark_paid_in_transaction-keeps :
      (updated_by : Option ℕ) → KeepsBooks v c (mark_paid_in_transaction tables w id updated_by)
  unfolding mark_paid_in_transaction
  mark_paid_in_transaction-keeps updated_by s sound = read_or_fail-keeps _ _ s (λ o read.
      Ensures-if _ (same_status o.status OrderStatus.paid) (find_order_details_by_id tables w id)
        (pay_found tables w id updated_by o) s (λ paid. details-keeps s sound)
        (λ unpaid. pay_found-keeps updated_by o s sound read))
