-- ===== src/Orders/Ledger/Calls.antt =====
-- `create` keeps the books, whatever it returns or throws, and so do sequences of calls.
use rive_backend.Base.{
  ℕ, ◌≡◌, refl, false, Option, Result, ok, err, ◌>>=◌, ◌>>◌, pure, transaction, unique_violation,
  Option-cases, inl, inr, bad_request, arith,
}
use rive_backend.Base.Text.{Text}
use rive_backend.Db.{Prisma, IsPrisma, tables, on_every_db}
use rive_backend.Db.Keys.{has_key}
use rive_backend.Schema.{Order}
use rive_backend.Store.{Store, World}
use rive_backend.Orders.Emit.{kick_agent}
use rive_backend.Orders.Frames.{Frames}
use rive_backend.Orders.Create.{
  CreateOrderDto, check_dto, create_in_transaction, recover, place, create_fresh, create,
  find_by_key, non_empty,
}
use rive_backend.Orders.Calls.{Call, Run, perform}
use rive_backend.Orders.Ledger.{
  IsSound, IsSound-frame, settle-keeps, Keeps, Keeps-refl, Keeps-frame, Keeps-trans,
}
use rive_backend.Orders.Ledger.Creating.{create_in_transaction-keeps}
use rive_backend.Orders.Ledger.Services.{
  after-keeps, mark_paid-keeps, cancel_pending_order-keeps, expire_order-keeps,
  expire_pending_reservations-keeps, mark_cod_collected-keeps, kick_and_return-Frames,
  cancel_by_order_number-keeps, transition_status-keeps, update_shipping-keeps,
}

module _ (w : World) (v c : ℕ) where
  pub check_dto-Frames : (dto : CreateOrderDto) → Frames (check_dto dto)
  unfolding check_dto
  check_dto-Frames dto s = ground arith

  pub recover-state :
      (key : Option Text) (r : Result Order × Store) → (recover tables w key r).1 ≡ r.1
  unfolding recover
  recover-state key (ok o, s) = refl
  recover-state key (err unique_violation, s) = elim (Option-cases (find_by_key tables w key s)) [
    | inl e ↦ rw (e, recover) refl
    | inr (o, e) ↦ rw (e, recover) refl
  ]
  recover-state key (err (bad_request m), s) = refl
  recover-state key (err _, s) = refl

  -- The transaction of `create` and its `catch`.
  place-keeps :
      (dto : CreateOrderDto) (user : Option ℕ) (phone : Text) (s : Store)
      → IsSound c s
      → has_key (λ (o : Order). o.id) w.new_order_id s.orders ≡ false
      → Keeps v c s (place tables w dto user phone s).1
  unfolding place
  place-keeps dto user phone s sound fresh =
      rw
        (recover-state (non_empty dto.idempotency_key)
          (transaction (create_in_transaction tables w dto user phone) s))
        (settle-keeps (Keeps v c s) s (create_in_transaction tables w dto user phone s)
          (Keeps-refl v sound) (create_in_transaction-keeps w v c dto user phone s sound fresh))

  create_fresh-keeps :
      (dto : CreateOrderDto) (user : Option ℕ) (s : Store)
      → IsSound c s
      → has_key (λ (o : Order). o.id) w.new_order_id s.orders ≡ false
      → Keeps v c s (create_fresh tables w dto user s).1
  unfolding create_fresh
  create_fresh-keeps dto user s sound fresh =
      let checked = check_dto-Frames dto s in
      let t = (check_dto dto s).1 in
      after-keeps v c (check_dto dto s).0 t
        (λ phone. place tables w dto user phone >>= λ order. kick_agent tables w >> pure order)
        (Keeps-frame v checked sound)
        (λ phone.
          let placed =
            place-keeps dto user phone t (IsSound-frame checked sound) (rw checked.orders fresh) in
          after-keeps v c (place tables w dto user phone t).0 (place tables w dto user phone t).1
            (λ order. kick_agent tables w >> pure order) placed
            (λ order.
              Keeps-frame v (kick_and_return-Frames w v c order (place tables w dto user phone t).1)
                placed.sound))

  create-keeps :
      (dto : CreateOrderDto) (user : Option ℕ) (s : Store)
      → IsSound c s
      → has_key (λ (o : Order). o.id) w.new_order_id s.orders ≡ false
      → Keeps v c s (create tables w dto user s).1
  unfolding create
  create-keeps dto user s sound fresh =
      elim (Option-cases (find_by_key tables w (non_empty dto.idempotency_key) s)) [
        | inl e ↦ rw (e, create) (create_fresh-keeps dto user s sound fresh)
        | inr (o, e) ↦ rw (e, create) (Keeps-refl v sound)
      ]

  perform-keeps :
      (k : Call) (s : Store)
      → IsSound c s
      → has_key (λ (o : Order). o.id) w.new_order_id s.orders ≡ false
      → Keeps v c s (perform tables w k s)
  unfolding perform
  perform-keeps (Call.creates dto user) s sound fresh = create-keeps dto user s sound fresh
  perform-keeps (Call.pays id user) s sound fresh = mark_paid-keeps w v c id user s sound
  perform-keeps (Call.collects id user) s sound fresh =
      mark_cod_collected-keeps w v c id user s sound
  perform-keeps (Call.transitions id next user) s sound fresh =
      transition_status-keeps w v c id next user s sound
  perform-keeps (Call.cancels_pending id user) s sound fresh =
      cancel_pending_order-keeps w v c id _ user refl s sound
  perform-keeps (Call.lapses_pending id user) s sound fresh =
      cancel_pending_order-keeps w v c id _ user refl s sound
  perform-keeps (Call.cancels_by_number number) s sound fresh =
      cancel_by_order_number-keeps w v c number s sound
  perform-keeps (Call.expires_one id now) s sound fresh = expire_order-keeps w v c id now s sound
  perform-keeps (Call.expires_all now) s sound fresh =
      expire_pending_reservations-keeps w v c now s sound
  perform-keeps (Call.ships id dto user) s sound fresh =
      update_shipping-keeps w v c id dto user s sound

Run_tables-keeps : (v c : ℕ) (s t : Store) → Run tables s t → IsSound c s → Keeps v c s t
Run_tables-keeps v c s t (Run.done _) sound = Keeps-refl v sound
Run_tables-keeps v c s t (Run.call w k _ _ fresh rest) sound =
    let one = perform-keeps w v c k s sound fresh in
    Keeps-trans one (Run_tables-keeps v c (perform tables w k s) t rest one.sound)

-- Over a database that keeps to its documentation: whatever sequence of creations, payments,
-- collections, status changes, cancellations, expiries and shipping updates runs from sound
-- books, with fresh keys for new orders, and whatever the calls return or throw, the books are
-- sound at the end (keys unique, no order soft-deleted, the count of each coupon the number of
-- its uses by orders that were not given up), and the pieces of each variant, in stock and held
-- by such orders, are as many as at the start.
pub Run-keeps :
    (db : Prisma) → IsPrisma db → (v c : ℕ) (s t : Store) → Run db s t → IsSound c s → Keeps v c s t
Run-keeps =
    on_every_db (λ db. (v c : ℕ) (s t : Store) → Run db s t → IsSound c s → Keeps v c s t)
      Run_tables-keeps
