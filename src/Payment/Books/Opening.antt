-- ===== src/Payment/Books/Opening.antt =====
-- `createCheckoutSession` of src/payment/paymob.service.ts keeps the books.
use rive_backend.Base.{
  ℕ, ◌≡◌, refl, Bool, true, false, not, ◌&&◌, Option, none, some, if◌then◌else◌, ◌>>=◌, ◌>>◌, throw,
  pure, gets, or_throw, Option-cases, inl, inr, bad_request, [], ◌∷◌, not_found, forbidden,
  throw_if, Bool-cases, arith,
}
use rive_backend.Base.Text.{Text}
use rive_backend.Db.{tables, update_where}
use rive_backend.Schema.{Order}
use rive_backend.Store.{Store, World}
use rive_backend.Util.Ownership.{Caller, is_admin, is_order_owned_by_actor}
use rive_backend.Orders.Status.{is_cod}
use rive_backend.Orders.Emit.{find_order}
use rive_backend.Orders.Cancel.{with_orders, expire_order}
use rive_backend.Orders.Create.{same_text, is_nil}
use rive_backend.Orders.Frames.{SameBusiness, Frames, Frames-or_throw}
use rive_backend.Orders.Ledger.{Keeps, Keeps-refl, Keeps-trans, Keeps-frame}
use rive_backend.Orders.Ledger.Paying.{IsMild-by, update-keeps}
use rive_backend.Orders.Ledger.Services.{
  AlwaysKeeps, AlwaysKeeps-bind, AlwaysKeeps-frame, expire_order-keeps,
}
use rive_backend.Payment.Gateway.{Gateway, IntentionReply, truthy_or}
use rive_backend.Payment.Checkout.{
  awaits_payment, session_of, is_open_checkout, with_session, persisted_session, save_session,
  open_session, reuse_or_open, checkout_found, create_checkout_session,
}
use rive_backend.Payment.Books.{Frames-gets}
use rive_backend.Payment.Books.Settling.{AlwaysKeeps-unless}

module _ (w : World) (g : Gateway) (v c : ℕ) where
  unchanged : (s : Store) → SameBusiness s s
  unchanged s = record { orders = refl; variants = refl; coupons = refl; events = refl }

  pub persisted_session-Frames :
      (o : Order) (secret : Text) → Frames (persisted_session tables w g o secret)
  unfolding persisted_session
  persisted_session-Frames o secret s = elim (Option-cases (find_order tables w o.id s)) [
    | inl e ↦ rw (e, persisted_session) (unchanged s)
    | inr (p, e) ↦ elim (Bool-cases (same_text tables w p.payment_session_id (some secret))) [
      | inl f ↦ rw (e, persisted_session, f) (unchanged s)
      | inr f ↦ rw (e, persisted_session, f) (unchanged s)
    ]
  ]

  hit-id : (id : ℕ) (r : Order) → is_open_checkout tables w g id r ≡ true → r.id ≡ id
  hit-id id r h = ground arith

  -- One of three results.
  one_of_three :
      {A : Type 0} (s : Store) (b b' : Bool) (r q p : A × Store)
      → Keeps v c s r.1
      → Keeps v c s q.1
      → Keeps v c s p.1
      → Keeps v c s (if b then r else if b' then q else p).1
  one_of_three s true b' r q p h k l = h
  one_of_three s false true r q p h k l = k
  one_of_three s false false r q p h k l = l

  save_session-keeps :
      (o : Order) (secret : Text) (intention : Option Text)
      → AlwaysKeeps v c (save_session tables w g o secret intention)
  unfolding save_session
  save_session-keeps o secret intention s sound =
      let hit = is_open_checkout tables w g o.id in
      let put = with_session tables w g secret intention in
      let saved = with_orders s (update_where hit put s.orders) in
      let kept =
        update-keeps w v c o.id hit put s (hit-id o.id)
          (IsMild-by put (λ r. (refl, refl, refl, refl))) (λ r found. refl) sound in
      one_of_three s _ _ (throw (bad_request "Failed to create Paymob checkout session") s)
        (persisted_session tables w g o secret saved) (pure (session_of g o secret true) saved)
        (Keeps-refl v sound)
        (Keeps-trans kept (Keeps-frame v (persisted_session-Frames o secret saved) kept.sound)) kept

  open_session-keeps :
      (o : Order) (reply : IntentionReply) → AlwaysKeeps v c (open_session tables w g o reply)
  unfolding open_session
  open_session-keeps o IntentionReply.refused s sound = Keeps-refl v sound
  open_session-keeps o IntentionReply.failed s sound = Keeps-refl v sound
  open_session-keeps o (IntentionReply.created none intention) s sound = Keeps-refl v sound
  open_session-keeps o (IntentionReply.created (some []) intention) s sound = Keeps-refl v sound
  open_session-keeps o (IntentionReply.created (some (d ∷ secret)) intention) s sound =
      save_session-keeps o (d ∷ secret) intention s sound

  reuse_or_open-keeps : (o : Order) → AlwaysKeeps v c (reuse_or_open tables w g o)
  unfolding reuse_or_open
  reuse_or_open-keeps o s sound =
      elim (Option-cases (truthy_or (truthy_or o.payment_session_id o.paymob_intention_id) none)) [
        | inl e ↦ rw (e, reuse_or_open) (open_session-keeps o (g.intention o) s sound)
        | inr (t, e) ↦ rw (e, reuse_or_open) (Keeps-refl v sound)
      ]

  checkout_found-keeps :
      (caller : Caller) (o : Order) → AlwaysKeeps v c (checkout_found tables w g caller o)
  unfolding checkout_found
  checkout_found-keeps caller o =
      let foreign =
        not (is_admin caller)
        && not (is_order_owned_by_actor o.user_id o.guest_access_token caller) in
      let e1 = forbidden "You do not have permission to checkout this order" in
      let e2 = bad_request "COD orders cannot be processed via Paymob" in
      let e3 = bad_request "This order is not awaiting payment" in
      let e4 = bad_request "Order must contain at least one item" in
      let m4 = throw_if (is_nil o.items) e4 >> reuse_or_open tables w g o in
      let m3 = throw_if (not (awaits_payment w.now o)) e3 >> m4 in
      AlwaysKeeps-unless w g v c foreign e1 (throw_if (is_cod o.payment_method) e2 >> m3) (
        AlwaysKeeps-unless w g v c (is_cod o.payment_method) e2 m3 (
          AlwaysKeeps-unless w g v c (not (awaits_payment w.now o)) e3 m4 (
            AlwaysKeeps-unless w g v c (is_nil o.items) e4 (reuse_or_open tables w g o)
              (reuse_or_open-keeps o))))

  pub create_checkout_session-keeps :
      (id : ℕ) (caller : Caller) → AlwaysKeeps v c (create_checkout_session tables w g id caller)
  unfolding create_checkout_session
  create_checkout_session-keeps id caller =
      let checkout = λ (found : Option Order).
        or_throw found (not_found "Order not found") >>= checkout_found tables w g caller in
      AlwaysKeeps-bind v c (expire_order tables w id w.now)
        (λ _. gets (find_order tables w id) >>= checkout) (expire_order-keeps w v c id w.now)
        (λ _.
          AlwaysKeeps-bind v c (gets (find_order tables w id)) checkout
            (AlwaysKeeps-frame v c (gets (find_order tables w id))
              (Frames-gets (find_order tables w id)))
            (λ found.
              AlwaysKeeps-bind v c (or_throw found (not_found "Order not found"))
                (checkout_found tables w g caller)
                (AlwaysKeeps-frame v c (or_throw found (not_found "Order not found"))
                  (Frames-or_throw found (not_found "Order not found")))
                (checkout_found-keeps caller)))
