-- ===== src/Orders/Linked/Placing.antt =====
-- `create` of src/orders/orders.service.ts places an order that no payment is linked to.
use rive_backend.Base.{
  ℕ, ◌≡◌, refl, Bool, true, not, ◌&&◌, Option, none, some, List, [], ◌∷◌, ◌++◌, arith, all, ltb,
  length, keep, ◌>>=◌, ◌>>◌, gets, pure, throw, throw_if, transaction, bad_request,
  unique_violation, subst, sym, Option-cases, inl, inr,
}
use rive_backend.Base.Text.{Text}
use rive_backend.Db.{tables}
use rive_backend.Schema.{Order, OrderItem, Coupon, SiteSettings}
use rive_backend.Store.{Store, World}
use rive_backend.Coupons.{has_expired, is_too_small, find_coupon, discount_by}
use rive_backend.Orders.Status.{is_cod}
use rive_backend.Orders.Emit.{emit_order_created, kick_agent}
use rive_backend.Orders.Cancel.{with_orders}
use rive_backend.Orders.Frames.{Frames-bind, Frames-pure, emit_order_created-Frames}
use rive_backend.Orders.Create.{
  CreateOrderDto, Redeemed, check_dto, price_items, wanted, is_cod_disabled, minimum_of,
  subtotal_of, method_of, reserve_item, reserve_items, redeem_coupon, redeem_found, count_use,
  is_customer_limit_reached, find_zone, compute_totals, new_order, insert_order, clashes,
  place_order, create_in_transaction, place, create_fresh, create, non_empty, find_by_key,
}
use rive_backend.Orders.Ledger.Taking.{price_items-Frames, find_zone-Frames, compute_totals-Frames}
use rive_backend.Orders.Ledger.Calls.{check_dto-Frames, recover-state}
use rive_backend.Orders.Ledger.Services.{kick_and_return-Frames}
use rive_backend.Orders.Preserve.{
  Preserves, Preserves-bind, Preserves-same, Preserves-frame, Preserves-either, Preserves-unless,
  Preserves-or_throw, Preserves-transaction,
}
use rive_backend.Orders.Linked.{Linked, is_well_linked}

all-append_one :
    {Row : Type 0} (q : Row → Bool) (t : List Row) (r : Row)
    → all q t ≡ true
    → q r ≡ true
    → all q (t ++ r ∷ []) ≡ true
all-append_one q [] r h e = ground arith
all-append_one q (x ∷ t) r h e = ground (arith, all-append_one q t r)

module _ (w : World) where
  reserve_item-same : (i : OrderItem) (s : Store) → (reserve_item tables w i s).1.orders ≡ s.orders
  unfolding reserve_item
  reserve_item-same i s = ground arith

  reserve_items-Linked : (is : List OrderItem) → Preserves Linked (reserve_items tables w is)
  unfolding reserve_items
  reserve_items-Linked [] s q = q
  reserve_items-Linked (i ∷ is) s q =
      Preserves-bind Linked (reserve_item tables w i) (λ _. reserve_items tables w is)
        (Preserves-same Linked (reserve_item tables w i) (reserve_item-same i))
        (λ _. reserve_items-Linked is) s q

  count_use-same : (k : Coupon) (s : Store) → (count_use tables w k s).1.orders ≡ s.orders
  unfolding count_use
  count_use-same k s = ground arith

  redeem_found-Linked :
      (k : Coupon) (user : Option ℕ) (subtotal : ℕ)
      → Preserves Linked (redeem_found tables w k user subtotal)
  unfolding redeem_found
  redeem_found-Linked k user subtotal =
      let redeemed : Redeemed = record {
        discount = discount_by k.type k.value subtotal;
        coupon_id = some k.id;
        coupon_code = some k.code;
      } in
      let counted = count_use tables w k >> pure redeemed in
      let e1 = bad_request "Coupon is invalid or inactive" in
      let e2 = bad_request "Coupon has expired" in
      let e3 = bad_request "Minimum order amount for this coupon" in
      let e4 = bad_request "Coupon customer usage limit reached" in
      let limited = λ (reached : Bool). throw_if reached e4 >> counted in
      let last = gets (is_customer_limit_reached tables w k user) >>= limited in
      let b2 = has_expired w.now k.expires_at in
      let b3 = is_too_small k.min_order_amount subtotal in
      Preserves-unless Linked (not k.is_active) e1 (throw_if b2 e2 >> (throw_if b3 e3 >> last))
        (λ _. Preserves-unless Linked b2 e2 (throw_if b3 e3 >> last) (λ _.
          Preserves-unless Linked b3 e3 last (λ _.
            Preserves-bind Linked (gets (is_customer_limit_reached tables w k user)) limited
              (λ s q. q)
              (λ reached. Preserves-unless Linked reached e4 counted (λ _.
                Preserves-bind Linked (count_use tables w k) (λ _. pure redeemed)
                  (Preserves-same Linked (count_use tables w k) (count_use-same k))
                  (λ _ s q. q))))))

  redeem_coupon-Linked :
      (code : Option Text) (user : Option ℕ) (subtotal : ℕ)
      → Preserves Linked (redeem_coupon tables w code user subtotal)
  unfolding redeem_coupon
  redeem_coupon-Linked none user subtotal s q = q
  redeem_coupon-Linked (some code) user subtotal s q =
      Preserves-or_throw Linked (find_coupon tables w code s)
        (bad_request "Coupon is invalid or inactive") (λ k. redeem_found tables w k user subtotal)
        (λ k. redeem_found-Linked k user subtotal) s q

  insert_order-Linked :
      (o : Order) → is_well_linked o ≡ true → Preserves Linked (insert_order tables w o)
  unfolding insert_order
  insert_order-Linked o well s q =
      Preserves-either Linked (ltb 0 (length (keep (clashes tables w o) s.orders)))
        (throw unique_violation s) (pure o (with_orders s (s.orders ++ o ∷ []))) (λ _. q)
        (λ _. all-append_one is_well_linked s.orders o q well)

  place_order-Linked :
      (dto : CreateOrderDto) (user : Option ℕ) (phone : Text)
      → (settings : Option SiteSettings) (items : List OrderItem) (redeemed : Redeemed) (price : ℕ)
      → Preserves Linked (place_order tables w dto user phone settings items redeemed price)
  unfolding place_order
  place_order-Linked dto user phone settings items redeemed price =
      let cod = is_cod (method_of dto) in
      let totals = compute_totals settings cod (subtotal_of items) redeemed.discount price in
      let tell = λ (created : Order). emit_order_created tables w created >> pure created in
      Preserves-bind Linked totals
        (λ t. insert_order tables w (new_order tables w dto user phone items redeemed t) >>= tell)
        (Preserves-frame Linked totals
          (compute_totals-Frames settings cod (subtotal_of items) redeemed.discount price))
        (λ t.
          let o = new_order tables w dto user phone items redeemed t in
          Preserves-bind Linked (insert_order tables w o) tell (insert_order-Linked o refl)
            (λ created. Preserves-frame Linked (tell created) (
              Frames-bind (emit_order_created tables w created) (λ _. pure created)
                (emit_order_created-Frames tables w created) (λ _. Frames-pure created))))

  create_in_transaction-Linked :
      (dto : CreateOrderDto) (user : Option ℕ) (phone : Text)
      → Preserves Linked (create_in_transaction tables w dto user phone)
  unfolding create_in_transaction
  create_in_transaction-Linked dto user phone s =
      let settings = s.settings in
      let priced = λ (t : Store). keep (wanted tables w dto) t.variants in
      let low = λ (items : List OrderItem).
        is_too_small (minimum_of tables w settings) (subtotal_of items) in
      let put = λ (items : List OrderItem) (redeemed : Redeemed).
        find_zone tables w dto.contact.shipping_city >>= λ zone.
        place_order tables w dto user phone settings items redeemed zone.price in
      let redeem = λ (items : List OrderItem).
        redeem_coupon tables w (non_empty dto.coupon_code) user (subtotal_of items) in
      let small = bad_request "Minimum order amount" in
      let after =
        λ (items : List OrderItem). throw_if (low items) small >> (redeem items >>= put items) in
      let rest = λ (items : List OrderItem). reserve_items tables w items >> after items in
      Preserves-unless Linked (is_cod (method_of dto) && is_cod_disabled tables w settings)
        (bad_request "Cash on Delivery (COD) is currently disabled")
        (gets priced >>= λ variants. price_items variants dto.items >>= rest)
        (λ _.
          Preserves-bind Linked (gets priced) (λ variants. price_items variants dto.items >>= rest)
            (λ t q. q)
            (λ variants.
              Preserves-bind Linked (price_items variants dto.items) rest
                (Preserves-frame Linked (price_items variants dto.items)
                  (price_items-Frames variants dto.items))
                (λ items.
                  Preserves-bind Linked (reserve_items tables w items) (λ _. after items)
                    (reserve_items-Linked items)
                    (λ _.
                      Preserves-unless Linked (low items) small (redeem items >>= put items) (λ _.
                        Preserves-bind Linked (redeem items) (put items)
                          (redeem_coupon-Linked (non_empty dto.coupon_code) user
                            (subtotal_of items))
                          (λ redeemed.
                            Preserves-bind Linked (find_zone tables w dto.contact.shipping_city)
                              (λ zone.
                                place_order tables w dto user phone settings items redeemed
                                  zone.price)
                              (Preserves-frame Linked (find_zone tables w dto.contact.shipping_city)
                                (find_zone-Frames w dto.contact.shipping_city))
                              (λ zone.
                                place_order-Linked dto user phone settings items redeemed
                                  zone.price)))))))
        s

  place-Linked :
      (dto : CreateOrderDto) (user : Option ℕ) (phone : Text)
      → Preserves Linked (place tables w dto user phone)
  unfolding place
  place-Linked dto user phone s q =
      let tried = transaction (create_in_transaction tables w dto user phone) s in
      subst (λ t. Linked t.orders) (sym (recover-state w 0 0 (non_empty dto.idempotency_key) tried))
        (Preserves-transaction Linked (create_in_transaction tables w dto user phone)
          (create_in_transaction-Linked dto user phone) s q)

  create_fresh-Linked :
      (dto : CreateOrderDto) (user : Option ℕ) → Preserves Linked (create_fresh tables w dto user)
  unfolding create_fresh
  create_fresh-Linked dto user =
      let finish = λ (order : Order). kick_agent tables w >> pure order in
      Preserves-bind Linked (check_dto dto) (λ phone. place tables w dto user phone >>= finish)
        (Preserves-frame Linked (check_dto dto) (check_dto-Frames w 0 0 dto))
        (λ phone.
          Preserves-bind Linked (place tables w dto user phone) finish (place-Linked dto user phone)
            (λ order. Preserves-frame Linked (finish order) (kick_and_return-Frames w 0 0 order)))

  pub create-Linked :
      (dto : CreateOrderDto) (user : Option ℕ) → Preserves Linked (create tables w dto user)
  unfolding create
  create-Linked dto user s q =
      elim (Option-cases (find_by_key tables w (non_empty dto.idempotency_key) s)) [
        | inl e ↦ rw (e, create) (create_fresh-Linked dto user s q)
        | inr (o, e) ↦ rw (e, create) q
      ]
