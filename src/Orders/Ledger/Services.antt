-- ===== src/Orders/Ledger/Services.antt =====
-- The calls of `OrdersService` but `create`, whatever they return or throw, keep the books.
use rive_backend.Base.{
  ℕ, ◌≡◌, refl, ◌&&◌, not, true, Option, none, some, List, [], ◌∷◌, ltb, if◌then◌else◌, Result, ok,
  err, bind_result, ◌>>=◌, ◌>>◌, pure, throw_if, transaction, Option-cases, inl, inr,
}
use rive_backend.Base.Text.{Text}
use rive_backend.Db.{tables, update_where}
use rive_backend.Schema.{Order}
use rive_backend.Audit.{keep_audit}
use rive_backend.Store.{Store, World, M, payment_change}
use rive_backend.Orders.Status.{OrderStatus, PaymentStatus, is_cod, includes, same_status, is_paid}
use rive_backend.Orders.Emit.{has_id, find_order, find_order_details_by_id, kick_agent}
use rive_backend.Orders.Frames.{
  Frames, Frames-bind, Frames-if, Frames-pure, kick_agent-Frames, record_audit-Frames,
  enqueue_in_tx-Frames, find_order_details_by_id-Frames,
}
use rive_backend.Orders.Cancel.{
  with_orders, cancel_pending_order, cancel_pending_order_in_transaction,
  cancel_cod_order_in_transaction, expire_order, expire_each, expire_pending_reservations,
  cancel_found, cancel_numbered, find_to_cancel, cancel_by_order_number, cancellable_statuses,
}
use rive_backend.Orders.Pay.{
  mark_paid, mark_cod_collected, collect_in_transaction, collect, collected, tell_collected,
  transition_status, transition_in_transaction, report_transition,
}
use rive_backend.Orders.Admin.{update_shipping, reshipped, UpdateOrderShippingDto}
use rive_backend.Audit.{record_audit}
use rive_backend.Agent.Outbox.{enqueue_in_tx}
use rive_backend.Orders.Ledger.{
  is_given_up, IsSound, Keeps, Keeps-refl, Keeps-frame, Keeps-trans, Ensures, Ensures-if,
  Ensures-unless, Ensures-or_throw, Ensures-or_throw, KeepsBooks, KeepsBooks-bind, KeepsBooks-if,
  transaction-keeps,
}
use rive_backend.Orders.Ledger.Cancelling.{
  cancel_pending_order_in_transaction-keeps, cancel_cod_order_in_transaction-keeps,
}
use rive_backend.Orders.Ledger.Paying.{
  IsMild-by, update-keeps, update_and_tell-keeps, read_or_fail-keeps, details-keeps,
  mark_paid_in_transaction-keeps,
}
use rive_backend.Orders.Ledger.Moving.{transition_in_transaction-keeps, has_id-id, throw_if-keeps}

module _ (v c : ℕ) where
  -- Calls that keep the books also where they throw: what was committed stays.
  abbrev pub AlwaysKeeps : {A : Type 0} → M A → Type 0
  AlwaysKeeps m = (s : Store) → IsSound c s → Keeps v c s (m s).1

  pub after-keeps :
      {A B : Type 0} {s : Store} (r : Result A) (t : Store) (k : A → M B)
      → Keeps v c s t
      → ((a : A) → Keeps v c t (k a t).1)
      → Keeps v c s (bind_result r t k).1
  after-keeps (ok a) t k kept h = Keeps-trans kept (h a)
  after-keeps (err e) t k kept h = kept

  pub AlwaysKeeps-bind :
      {A B : Type 0} (m : M A) (k : A → M B)
      → AlwaysKeeps m
      → ((a : A) → AlwaysKeeps (k a))
      → AlwaysKeeps (m >>= k)
  AlwaysKeeps-bind m k h g s sound =
      after-keeps (m s).0 (m s).1 k (h s sound) (λ a. g a (m s).1 (h s sound).sound)

  pub AlwaysKeeps-frame : {A : Type 0} (m : M A) → Frames m → AlwaysKeeps m
  AlwaysKeeps-frame m frames s sound = Keeps-frame v (frames s) sound

module _ (w : World) (v c : ℕ) where
  pub mark_paid-keeps : (id : ℕ) (user : Option ℕ) → AlwaysKeeps v c (mark_paid tables w id user)
  unfolding mark_paid
  mark_paid-keeps id user = transaction-keeps v c _ (mark_paid_in_transaction-keeps w v c id user)

  pub cancel_pending_order-keeps :
      (id : ℕ) (status : OrderStatus) (user : Option ℕ)
      → is_given_up status ≡ true
      → AlwaysKeeps v c (cancel_pending_order tables w id status user)
  unfolding cancel_pending_order
  cancel_pending_order-keeps id status user gone =
      transaction-keeps v c _
        (cancel_pending_order_in_transaction-keeps w v c id status none user _ gone)

  pub expire_order-keeps : (id now : ℕ) → AlwaysKeeps v c (expire_order tables w id now)
  unfolding expire_order
  expire_order-keeps id now = transaction-keeps v c _ (
      cancel_pending_order_in_transaction-keeps w v c id OrderStatus.expired (some now) none _ refl)

  expire_each-keeps :
      (os : List Order) (now count : ℕ) → AlwaysKeeps v c (expire_each tables w os now count)
  unfolding expire_each
  expire_each-keeps [] now count s sound = Keeps-refl v sound
  expire_each-keeps (o ∷ os) now count s sound =
      AlwaysKeeps-bind v c (expire_order tables w o.id now) _ (expire_order-keeps o.id now)
        (λ expired. expire_each-keeps os now _) s sound

  pub expire_pending_reservations-keeps :
      (now : ℕ) → AlwaysKeeps v c (expire_pending_reservations tables w now)
  unfolding expire_pending_reservations
  expire_pending_reservations-keeps now s sound =
      AlwaysKeeps-bind v c (expire_each tables w _ now 0) _ (expire_each-keeps _ now 0)
        (λ count.
          AlwaysKeeps-frame v c
            ((if ltb 0 count then kick_agent tables w else pure tt) >> pure count)
            (Frames-bind (if ltb 0 count then kick_agent tables w else pure tt) (λ _. pure count)
              (Frames-if _ _ _ (kick_agent-Frames tables w) (Frames-pure tt))
              (λ _. Frames-pure count)))
        s sound

  pub tell_collected-Frames :
      (user : Option ℕ) (o : Order) → Frames (tell_collected tables w user o)
  unfolding tell_collected
  tell_collected-Frames user o =
      Frames-if _ _ _
        (Frames-bind (enqueue_in_tx tables w _ _) (λ _. pure tt) (enqueue_in_tx-Frames tables w _ _)
          (λ _. Frames-pure tt))
        (Frames-pure tt)

  collect-keeps :
      (id : ℕ) (user : Option ℕ) (o : Order) → KeepsBooks v c (collect tables w id user o)
  unfolding collect
  collect-keeps id user o s sound =
      let s' = with_orders s (update_where (has_id id) (collected user) s.orders) in
      let audit =
        record_audit tables w user "order.cod_collected" (inr id)
          (payment_change o.payment_status PaymentStatus.paid) in
      let tell = λ (details : Order). tell_collected tables w user details >> pure details in
      update_and_tell-keeps w v c id s s' (audit >> (find_order_details_by_id tables w id >>= tell))
        (update-keeps w v c id (has_id id) (collected user) s (has_id-id w v c id)
          (IsMild-by (collected user) (λ r. (refl, refl, refl, refl))) (λ r found. refl) sound)
        (Frames-bind audit (λ _. find_order_details_by_id tables w id >>= tell)
          (record_audit-Frames tables w user _ _ _)
          (λ _.
            Frames-bind (find_order_details_by_id tables w id) tell
              (find_order_details_by_id-Frames tables w id)
              (λ d.
                Frames-bind (tell_collected tables w user d) (λ _. pure d)
                  (tell_collected-Frames user d) (λ _. Frames-pure d))))

  collect_in_transaction-keeps :
      (id : ℕ) (user : Option ℕ) → KeepsBooks v c (collect_in_transaction tables w id user)
  unfolding collect_in_transaction
  collect_in_transaction-keeps id user s sound = read_or_fail-keeps w v c id _ _ s (λ o read.
      Ensures-unless _ (not (is_cod o.payment_method)) _ _ s (λ cod.
        Ensures-unless _
          (not (same_status o.status OrderStatus.shipped)
            && not (same_status o.status OrderStatus.delivered))
          _ _ s
          (λ sent.
            Ensures-if _ (is_paid o.payment_status) (find_order_details_by_id tables w id)
              (collect tables w id user o) s (λ paid. details-keeps w v c id s sound)
              (λ unpaid. collect-keeps id user o s sound))))

  audited-keeps :
      {A : Type 0} (s : Store) (r : Result A × Store)
      → IsSound c s
      → Ensures (λ _ t. Keeps v c s t) r
      → Keeps v c s (keep_audit s r).1
  audited-keeps s (ok a, t) sound kept = kept
  audited-keeps s (err e, t) sound kept =
      Keeps-frame v (record { orders = refl; variants = refl; coupons = refl; events = refl }) sound

  pub mark_cod_collected-keeps :
      (id : ℕ) (user : Option ℕ) → AlwaysKeeps v c (mark_cod_collected tables w id user)
  unfolding mark_cod_collected
  mark_cod_collected-keeps id user s sound =
      audited-keeps s (collect_in_transaction tables w id user s) sound
        (collect_in_transaction-keeps id user s sound)

  cancel_found-keeps : (o : Order) → KeepsBooks v c (cancel_found tables w o)
  unfolding cancel_found
  cancel_found-keeps o =
      KeepsBooks-bind v c _ _
        (KeepsBooks-if v c (is_cod o.payment_method) _ _
          (KeepsBooks-bind v c (throw_if (not (includes cancellable_statuses o.status)) _)
            (λ _. cancel_cod_order_in_transaction tables w o.id OrderStatus.cancelled none _)
            (throw_if-keeps w v c o.id _ _)
            (λ _. cancel_cod_order_in_transaction-keeps w v c o.id _ none _ refl))
          (KeepsBooks-bind v c (throw_if (not (same_status o.status OrderStatus.pending)) _)
            (λ _.
              cancel_pending_order_in_transaction tables w o.id OrderStatus.cancelled none none _)
            (throw_if-keeps w v c o.id _ _)
            (λ _. cancel_pending_order_in_transaction-keeps w v c o.id _ none none _ refl)))
        (λ cancelled.
          KeepsBooks-bind v c (throw_if (not cancelled) _)
            (λ _. find_order_details_by_id tables w o.id) (throw_if-keeps w v c o.id _ _)
            (λ _. details-keeps w v c o.id))

  cancel_numbered-keeps : (number : Text) → KeepsBooks v c (cancel_numbered tables w number)
  unfolding cancel_numbered
  cancel_numbered-keeps number s sound =
      Ensures-or_throw (λ _ t. Keeps v c s t) (find_to_cancel tables w number s) _
        (cancel_found tables w) s (λ o found. cancel_found-keeps o s sound)

  -- The end of a call: the agent is kicked, and the result returned.
  pub kick_and_return-Frames : {A : Type 0} (a : A) → Frames (kick_agent tables w >> pure a)
  kick_and_return-Frames a =
      Frames-bind (kick_agent tables w) (λ _. pure a) (kick_agent-Frames tables w)
        (λ _. Frames-pure a)

  pub cancel_by_order_number-keeps :
      (number : Text) → AlwaysKeeps v c (cancel_by_order_number tables w number)
  unfolding cancel_by_order_number
  cancel_by_order_number-keeps number =
      AlwaysKeeps-bind v c (transaction (cancel_numbered tables w number))
        (λ result. kick_agent tables w >> pure result)
        (transaction-keeps v c _ (cancel_numbered-keeps number))
        (λ result.
          AlwaysKeeps-frame v c (kick_agent tables w >> pure result)
            (kick_and_return-Frames result))

  pub report_transition-Frames :
      (user : Option ℕ) (before after : Order)
      → Frames (report_transition tables w user before after)
  unfolding report_transition
  report_transition-Frames user before after =
      Frames-if _ _ _ (record_audit-Frames tables w _ _ _ _) (Frames-pure tt)

  pub transition_status-keeps :
      (id : ℕ) (next : OrderStatus) (user : Option ℕ)
      → AlwaysKeeps v c (transition_status tables w id next user)
  unfolding transition_status
  transition_status-keeps id next user =
      let tell = λ (r : Order × Order). report_transition tables w user r.0 r.1 >> pure r.1 in
      AlwaysKeeps-bind v c (transaction (transition_in_transaction tables w id next user))
        (λ r. kick_agent tables w >> tell r)
        (transaction-keeps v c _ (transition_in_transaction-keeps w v c id next user))
        (λ r. AlwaysKeeps-frame v c (kick_agent tables w >> tell r) (
          Frames-bind (kick_agent tables w) (λ _. tell r) (kick_agent-Frames tables w)
            (λ _.
              Frames-bind (report_transition tables w user r.0 r.1) (λ _. pure r.1)
                (report_transition-Frames user r.0 r.1) (λ _. Frames-pure r.1))))

  pub update_shipping-keeps :
      (id : ℕ) (dto : UpdateOrderShippingDto) (user : Option ℕ)
      → AlwaysKeeps v c (update_shipping tables w id dto user)
  unfolding update_shipping
  update_shipping-keeps id dto user s sound = elim (Option-cases (find_order tables w id s)) [
    | inl missing ↦ rw (missing, update_shipping) (Keeps-refl v sound)
    | inr (o, read) ↦
        let s' = with_orders s (update_where (has_id id) (reshipped dto user) s.orders) in
        let updated =
          update-keeps w v c id (has_id id) (reshipped dto user) s (has_id-id w v c id)
            (IsMild-by (reshipped dto user) (λ r. (refl, refl, refl, refl))) (λ r found. refl)
            sound in
        rw (read, update_shipping)
          (Keeps-trans updated
            (Keeps-frame v (record_audit-Frames tables w user _ _ _ s') updated.sound))
  ]
