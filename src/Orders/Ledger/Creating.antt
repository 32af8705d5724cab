-- ===== src/Orders/Ledger/Creating.antt =====
-- The transaction of `create` keeps the books.
use rive_backend.Base.{
  ℕ, ◌≡◌, refl, ◌&&◌, false, Option, none, List, [], ◌∷◌, ◌++◌, arith, ltb, ap, if◌then◌else◌,
  same_key, sum_by, sum_by-append, keep, length, Bool-cases, inl, inr, ◌>>◌, pure, ◌∙◌,
}
use rive_backend.Base.Text.{Text}
use rive_backend.Db.{tables}
use rive_backend.Db.Keys.{has_key, append-IsUnique, any-append_one}
use rive_backend.Schema.{Order, OrderItem}
use rive_backend.Store.{Store, World, M}
use rive_backend.Coupons.{is_too_small}
use rive_backend.Orders.Status.{OrderStatus, is_cod}
use rive_backend.Orders.Emit.{quantity_of, emit_order_created}
use rive_backend.Orders.Frames.{SameBusiness, Frames, emit_order_created-Frames}
use rive_backend.Orders.Create.{
  CreateOrderDto, Redeemed, reserve_items, redeem_coupon, price_items, find_zone, compute_totals,
  insert_order, new_order, create_in_transaction, place_order, clashes, wanted, method_of,
  is_cod_disabled, minimum_of, subtotal_of, non_empty,
}
use rive_backend.Orders.Ledger.{
  stock_at, count_at, use_of, held, is_deleted, IsSound, Keeps, Keeps-refl, Keeps-trans, Ensures,
  Ensures-bind, Ensures-map, Ensures-unless, Ensures-always, KeepsBooks-bind, KeepsBooks-frame,
}
use rive_backend.Orders.Ledger.Taking.{
  Taken, Counted, reserve_items-lem, redeem_coupon-lem, price_items-Frames, find_zone-Frames,
  compute_totals-Frames,
}

-- The steps of the transaction, from the state before it to that with the new row.
module _ (v c : ℕ) where
  placed :
      (s a b d e f : Store) (o : Order)
      → IsSound c s
      → SameBusiness s a
      → Taken v o.items a b
      → Counted c o.coupon_id b d
      → SameBusiness d e
      → SameBusiness e f
      → o.status ≡ OrderStatus.pending
      → o.deleted_at ≡ none
      → has_key (λ (o : Order). o.id) o.id s.orders ≡ false
      → Keeps v c s (record f { orders = f.orders ++ o ∷ [] })
  placed s a b d e f o sound priced taken counted zoned totalled open_order kept fresh =
      let from_s : f.orders ≡ s.orders =
        cc (totalled.orders, zoned.orders, counted.orders, taken.orders, priced.orders) in
      record {
        sound = record {
          order_keys =
              rw from_s (append-IsUnique (λ (o : Order). o.id) s.orders o fresh sound.order_keys);
          variant_keys =
              rw (totalled.variants, zoned.variants, counted.variants) taken.variant_keys;
          coupon_keys = rw (totalled.coupons, zoned.coupons) counted.coupon_keys;
          none_deleted =
              rw from_s (any-append_one is_deleted s.orders o sound.none_deleted (rw kept));
          balanced =
              rw (from_s, totalled.coupons, zoned.coupons)
                (omega (
                  arith,
                  counted.count,
                  ap (sum_by (count_at c)) (taken.coupons ∙ priced.coupons),
                  sound.balanced,
                  sum_by-append (use_of c) s.orders (o ∷ []),
                  used o open_order,
                ));
        };
        same_pieces =
            rw (from_s, totalled.variants, zoned.variants, counted.variants)
              (omega (
                arith,
                taken.stock,
                ap (sum_by (stock_at v)) priced.variants,
                sum_by-append (held v) s.orders (o ∷ []),
                holds o open_order,
              ));
      }
    where
      used :
          (o : Order)
          → o.status ≡ OrderStatus.pending
          → use_of c o ≡ (if same_key o.coupon_id c then 1 else 0)
      used o h = rw h

      holds : (o : Order) → o.status ≡ OrderStatus.pending → held v o ≡ quantity_of v o.items
      holds o h = rw h

Ensures-frame :
    {A : Type 0} (m : M A) (s : Store) → Frames m → Ensures (λ _ t. SameBusiness s t) (m s)
Ensures-frame m s frames = Ensures-always (SameBusiness s) (m s) (frames s)

module _ (w : World) (v c : ℕ) where
  insert_order-keeps :
      (s a b d e f : Store) (o : Order)
      → IsSound c s
      → SameBusiness s a
      → Taken v o.items a b
      → Counted c o.coupon_id b d
      → SameBusiness d e
      → SameBusiness e f
      → o.status ≡ OrderStatus.pending
      → o.deleted_at ≡ none
      → has_key (λ (o : Order). o.id) o.id s.orders ≡ false
      → Ensures (λ _ t. Keeps v c s t) (insert_order tables w o f)
  unfolding insert_order
  insert_order-keeps s a b d e f o sound priced taken counted zoned totalled pending kept fresh =
      elim (Bool-cases (ltb 0 (length (keep (clashes tables w o) f.orders)))) [
        | inl clash ↦ rw (clash, insert_order) tt
        | inr none_clash ↦
            rw (none_clash, insert_order)
              (placed v c s a b d e f o sound priced taken counted zoned totalled pending kept
                fresh)
      ]

  -- The last steps: the totals, the row and its events.
  inserted :
      (s a b d e : Store) (dto : CreateOrderDto) (user : Option ℕ) (phone : Text)
      → (items : List OrderItem) (redeemed : Redeemed) (price : ℕ) → IsSound c s
      → has_key (λ (o : Order). o.id) w.new_order_id s.orders ≡ false
      → SameBusiness s a
      → Taken v items a b
      → Counted c redeemed.coupon_id b d
      → SameBusiness d e
      → Ensures
          (λ _ t. Keeps v c s t)
          (place_order tables w dto user phone s.settings items redeemed price e)
  unfolding place_order
  inserted s a b d e dto user phone items redeemed price sound fresh same_a taken counted same_e =
      let cod = is_cod (method_of dto) in
      let totals = compute_totals s.settings cod (subtotal_of items) redeemed.discount price in
      Ensures-bind _ _ (totals e) _
        (Ensures-frame totals e
          (compute_totals-Frames s.settings cod (subtotal_of items) redeemed.discount price))
        (λ t f same_f.
          let o = new_order tables w dto user phone items redeemed t in
          Ensures-bind (λ _ t. Keeps v c s t) _ (insert_order tables w o f) _
            (insert_order-keeps s a b d e f o sound same_a taken counted same_e same_f refl refl
              fresh)
            (λ created g kept.
              Ensures-map (λ _ u. Keeps v c g u) _
                ((emit_order_created tables w created >> pure created) g)
                (KeepsBooks-bind v c (emit_order_created tables w created) (λ _. pure created)
                  (KeepsBooks-frame v c (emit_order_created tables w created)
                    (emit_order_created-Frames tables w created))
                  (λ _ u sound_u. Keeps-refl v sound_u) g kept.sound)
                (λ _ u. Keeps-trans kept)))

  pub create_in_transaction-keeps :
      (dto : CreateOrderDto) (user : Option ℕ) (phone : Text) (s : Store)
      → IsSound c s
      → has_key (λ (o : Order). o.id) w.new_order_id s.orders ≡ false
      → Ensures (λ _ t. Keeps v c s t) (create_in_transaction tables w dto user phone s)
  unfolding create_in_transaction
  create_in_transaction-keeps dto user phone s sound fresh =
      let priced = keep (wanted tables w dto) s.variants in
      Ensures-unless _ (is_cod (method_of dto) && is_cod_disabled tables w s.settings) _ _ s
        (λ open_cod.
          Ensures-bind _ _ (price_items priced dto.items s) _
            (Ensures-frame (price_items priced dto.items) s (price_items-Frames priced dto.items))
            (λ items a same_a.
              Ensures-bind _ _ (reserve_items tables w items a) _
                (reserve_items-lem w v items a (rw same_a.variants sound.variant_keys))
                (λ _ b taken.
                  Ensures-unless _
                    (is_too_small (minimum_of tables w s.settings) (subtotal_of items)) _ _ b
                    (λ enough.
                      Ensures-bind _ _
                        (redeem_coupon tables w (non_empty dto.coupon_code) user (subtotal_of items)
                          b)
                        _
                        (redeem_coupon-lem w c (non_empty dto.coupon_code) user (subtotal_of items)
                          b (rw (taken.coupons, same_a.coupons) sound.coupon_keys))
                        (λ redeemed d counted.
                          Ensures-bind _ _ (find_zone tables w dto.contact.shipping_city d) _
                            (Ensures-frame (find_zone tables w dto.contact.shipping_city) d
                              (find_zone-Frames w dto.contact.shipping_city))
                            (λ zone e same_e.
                              inserted s a b d e dto user phone items redeemed zone.price sound
                                fresh same_a taken counted same_e))))))
