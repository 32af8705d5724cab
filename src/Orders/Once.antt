-- ===== src/Orders/Once.antt =====
-- Orders placed with an idempotency key (`create` of src/orders/orders.service.ts).
use rive_backend.Base.{
  ℕ, ◌≡◌, refl, sym, subst, Bool, true, false, ◌&&◌, ◌||◌, Option, none, some, List, [], ◌∷◌, ◌++◌,
  arith, Result, ok, err, bind_result, pure, find, keep, length, ltb, Bool-cases, Option-cases, inl,
  inr, throw, transaction, unique_violation, bad_request, not_found, conflict, forbidden, throttled,
  unauthorized, unavailable, bad_gateway, record_missing, internal, settle,
}
use rive_backend.Base.Text.{Text, text_eq_refl}
use rive_backend.Db.{Prisma, IsPrisma, tables, on_every_db}
use rive_backend.Schema.{Order, OrderItem, SiteSettings}
use rive_backend.Store.{Store, World, M}
use rive_backend.Orders.Emit.{emit_order_created, kick_agent, is_live}
use rive_backend.Orders.Frames.{SameBusiness, emit_order_created-Frames, kick_agent-Frames}
use rive_backend.Orders.Create.{
  CreateOrderDto, create, create_fresh, place, recover, create_in_transaction, place_order,
  insert_order, find_by_key, non_empty, compute_totals, same_text, clashes, new_order,
  is_cod_disabled, price_items, wanted, reserve_items, minimum_of, subtotal_of, redeem_coupon,
  find_zone, method_of, Redeemed, check_dto,
}
use rive_backend.Orders.Ledger.{Ensures, Ensures-bind, Ensures-always, Ensures-unless}
use rive_backend.Orders.Status.{is_cod}
use rive_backend.Coupons.{is_too_small}

-- What holds of every return of the last step holds of every return of the whole.
Ensures-last :
    {A B : Type 0} (Q : B → Store → Type 0) (r : Result A × Store) (f : A → M B)
    → ((a : A) (s : Store) → Ensures Q (f a s))
    → Ensures Q (bind_result r.0 r.1 f)
Ensures-last Q (ok a, s) f h = h a s
Ensures-last Q (err e, s) f h = tt

-- The order is what its key now finds.
abbrev Found : Prisma → World → Option Text → Order → Store → Type 0
Found db w (some key) o t = find_by_key db w (some key) t ≡ some o
Found db w none o t = Unit {0}

none_kept :
    (p : Order → Bool) (o : Order) (os : List Order)
    → length (keep p (o ∷ os)) ≡ 0
    → (p o ≡ false) × (length (keep p os) ≡ 0)
none_kept p o os h = ground arith

middle : (a b c : Bool) → (a || b || c) ≡ false → b ≡ false
middle a b c h = ground arith

none_of : {n : ℕ} → ltb 0 n ≡ false → n ≡ 0
none_of h = ground arith

module _ (w : World) where
  other_key :
      (new o : Order) (key : Text)
      → new.idempotency_key ≡ some key
      → clashes tables w new o ≡ false
      → same_text tables w o.idempotency_key (some key) ≡ false
  other_key new o key e h =
      subst (λ k. same_text tables w o.idempotency_key k ≡ false) e (middle _ _ _ h)

  find_append :
      (key : Text) (new : Order) (os : List Order)
      → length (keep (clashes tables w new) os) ≡ 0
      → same_text tables w new.idempotency_key (some key) ≡ true
      → is_live new ≡ true
      → new.idempotency_key ≡ some key
      → find
          (λ (o : Order). same_text tables w o.idempotency_key (some key) && is_live o)
          (os ++ new ∷ [])
        ≡ some new
  find_append key new [] h k l e = rw (k, l)
  find_append key new (o ∷ os) h k l e =
      let (other, rest) = none_kept (clashes tables w new) o os h in
      rw (other_key new o key e other) (find_append key new os rest k l e)

  key_found :
      (new : Order) (key : Text)
      → new.idempotency_key ≡ some key
      → same_text tables w new.idempotency_key (some key) ≡ true
  key_found new key e = rw e (text_eq_refl key)

  insert-Found :
      (key : Text) (new : Order) (s : Store)
      → new.idempotency_key ≡ some key
      → is_live new ≡ true
      → Ensures (Found tables w (some key)) (insert_order tables w new s)
  unfolding insert_order find_by_key
  insert-Found key new s e live =
      elim (Bool-cases (ltb 0 (length (keep (clashes tables w new) s.orders)))) [
        | inl clash ↦ rw clash tt
        | inr free ↦
            rw free (find_append key new s.orders (none_of free) (key_found new key e) live e)
      ]

  place_order-Found :
      (key : Text) (dto : CreateOrderDto) (user : Option ℕ) (phone : Text)
      → (settings : Option SiteSettings) (items : List OrderItem) (redeemed : Redeemed) (price : ℕ)
      → non_empty dto.idempotency_key ≡ some key
      → (s : Store)
      → Ensures
          (Found tables w (some key))
          (place_order tables w dto user phone settings items redeemed price s)
  unfolding place_order find_by_key
  place_order-Found key dto user phone settings items redeemed price e s =
      Ensures-last _
        (compute_totals settings (is_cod (method_of dto)) (subtotal_of items) redeemed.discount
          price s)
        _
        (λ totals a.
          let new = new_order tables w dto user phone items redeemed totals in
          Ensures-bind (Found tables w (some key)) _ (insert_order tables w new a) _
            (insert-Found key new a e refl)
            (λ created t found.
              Ensures-bind (λ _ u. SameBusiness t u) _ (emit_order_created tables w created t) _
                (Ensures-always (SameBusiness t) (emit_order_created tables w created t)
                  (emit_order_created-Frames tables w created t))
                (λ _ u same. rw same.orders found)))

  create_in_transaction-Found :
      (key : Text) (dto : CreateOrderDto) (user : Option ℕ) (phone : Text) (s : Store)
      → non_empty dto.idempotency_key ≡ some key
      → Ensures (Found tables w (some key)) (create_in_transaction tables w dto user phone s)
  unfolding create_in_transaction
  create_in_transaction-Found key dto user phone s e =
      Ensures-unless _ (is_cod (method_of dto) && is_cod_disabled tables w s.settings) _ _ s (λ _.
        Ensures-last _ (price_items (keep (wanted tables w dto) s.variants) dto.items s) _
          (λ items a. Ensures-last _ (reserve_items tables w items a) _ (λ _ b.
            Ensures-unless _ (is_too_small (minimum_of tables w s.settings) (subtotal_of items)) _ _
              b
              (λ _.
                Ensures-last _
                  (redeem_coupon tables w (non_empty dto.coupon_code) user (subtotal_of items) b) _
                  (λ redeemed d.
                    Ensures-last _ (find_zone tables w dto.contact.shipping_city d) _ (λ zone f.
                      place_order-Found key dto user phone s.settings items redeemed zone.price e
                        f))))))

  settle-Ensures :
      {A : Type 0} (Q : A → Store → Type 0) (s : Store) (r : Result A × Store)
      → Ensures Q r
      → Ensures Q (settle s r)
  settle-Ensures Q s (ok a, t) h = h
  settle-Ensures Q s (err e, t) h = tt

  Found-or_throw :
      (key : Text) (o : Option Order) (s : Store)
      → find_by_key tables w (some key) s ≡ o
      → Ensures
          (Found tables w (some key))
          (elim o [ none ↦ throw unique_violation s | some x ↦ pure x s ])
  Found-or_throw key none s h = tt
  Found-or_throw key (some x) s h = h

  recover-Found :
      (key : Text) (r : Result Order × Store)
      → Ensures (Found tables w (some key)) r
      → Ensures (Found tables w (some key)) (recover tables w (some key) r)
  unfolding recover
  recover-Found key (ok o, s) h = h
  recover-Found key (err unique_violation, s) h =
      Found-or_throw key (find_by_key tables w (some key) s) s refl
  recover-Found key (err (bad_request m), s) h = tt
  recover-Found key (err (not_found m), s) h = tt
  recover-Found key (err (conflict m), s) h = tt
  recover-Found key (err (forbidden m), s) h = tt
  recover-Found key (err (throttled m), s) h = tt
  recover-Found key (err (unauthorized m), s) h = tt
  recover-Found key (err (unavailable m), s) h = tt
  recover-Found key (err (bad_gateway m), s) h = tt
  recover-Found key (err record_missing, s) h = tt
  recover-Found key (err (internal m), s) h = tt

  place-Found :
      (key : Text) (dto : CreateOrderDto) (user : Option ℕ) (phone : Text) (s : Store)
      → non_empty dto.idempotency_key ≡ some key
      → Ensures (Found tables w (some key)) (place tables w dto user phone s)
  unfolding place
  place-Found key dto user phone s e =
      let tried = transaction (create_in_transaction tables w dto user phone) s in
      subst (λ k. Ensures (Found tables w (some key)) (recover tables w k tried)) (sym e)
        (recover-Found key tried (
          settle-Ensures (Found tables w (some key)) s
            (create_in_transaction tables w dto user phone s)
            (create_in_transaction-Found key dto user phone s e)))

  create_fresh-Found :
      (key : Text) (dto : CreateOrderDto) (user : Option ℕ) (s : Store)
      → non_empty dto.idempotency_key ≡ some key
      → Ensures (Found tables w (some key)) (create_fresh tables w dto user s)
  unfolding create_fresh find_by_key
  create_fresh-Found key dto user s e = Ensures-last _ (check_dto dto s) _ (λ phone a.
      Ensures-bind (Found tables w (some key)) _ (place tables w dto user phone a) _
        (place-Found key dto user phone a e)
        (λ order t found.
          Ensures-bind (λ _ u. SameBusiness t u) _ (kick_agent tables w t) _
            (Ensures-always (SameBusiness t) (kick_agent tables w t) (kick_agent-Frames tables w t))
            (λ _ u same. rw same.orders found)))

  create-Found :
      (key : Text) (dto : CreateOrderDto) (user : Option ℕ) (s : Store)
      → non_empty dto.idempotency_key ≡ some key
      → Ensures (Found tables w (some key)) (create tables w dto user s)
  unfolding create
  create-Found key dto user s e =
      elim (Option-cases (find_by_key tables w (non_empty dto.idempotency_key) s)) [
        | inl none_yet ↦ rw (none_yet, create) (create_fresh-Found key dto user s e)
        | inr (o, there) ↦
            rw (there, create) (subst (λ k. find_by_key tables w k s ≡ some o) e there)
      ]

abbrev RepeatsFind : Prisma → Type 0
RepeatsFind db =
    (w w' : World) (dto dto' : CreateOrderDto) (user user' : Option ℕ) (key : Text) (s t : Store)
    → (o : Order) → non_empty dto.idempotency_key ≡ some key
    → non_empty dto'.idempotency_key ≡ some key
    → create db w dto user s ≡ (ok o, t)
    → create db w' dto' user' t ≡ (ok o, t)

create-existing :
    (w : World) (dto : CreateOrderDto) (user : Option ℕ) (s : Store) (o : Order)
    → find_by_key tables w (non_empty dto.idempotency_key) s ≡ some o
    → create tables w dto user s ≡ (ok o, s)
unfolding create
create-existing w dto user s o there = rw (there, create)

tables-RepeatsFind : RepeatsFind tables
unfolding find_by_key
tables-RepeatsFind w w' dto dto' user user' key s t o e e' done =
    let found : find_by_key tables w' (some key) t ≡ some o =
      subst (Ensures (Found tables w (some key))) done (create-Found w key dto user s e) in
    create-existing w' dto' user' t o
      (subst (λ k. find_by_key tables w' k t ≡ some o) (sym e') found)

-- Placing an order is idempotent: once a request with a key has returned an order, every request
-- with the same key, whatever else it says, returns that order and changes nothing.
pub create-idempotent :
    (db : Prisma)
    → IsPrisma db
    → (w w' : World) (dto dto' : CreateOrderDto) (user user' : Option ℕ) (key : Text) (s t : Store)
    → (o : Order) → non_empty dto.idempotency_key ≡ some key
    → non_empty dto'.idempotency_key ≡ some key
    → create db w dto user s ≡ (ok o, t)
    → create db w' dto' user' t ≡ (ok o, t)
create-idempotent = on_every_db RepeatsFind tables-RepeatsFind
