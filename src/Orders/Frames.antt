-- ===== src/Orders/Frames.antt =====
-- What best-effort writes leave alone: agent events, their delivery and audit entries never touch
-- an order, a variant or a coupon, whether they succeed or not.
use rive_backend.Base.{
  ℕ, ◌≡◌, refl, ◌∙◌, Bool, true, false, Option, none, some, List, [], ◌∷◌, arith, Result, ok, err,
  bind_result, ◌>>=◌, pure, Bool-cases, inl, inr, if◌then◌else◌, ◌⊎◌, max, min, length, throw_if,
  or_throw, Failure, ◌==◌,
}
use Prim.Native.String.{String}
use rive_backend.Base.Text.{Text}
use rive_backend.Db.{Prisma}
use rive_backend.Schema.{Order, OrderItem, Variant}
use rive_backend.Store.{Store, World, M, EventSource, OutboxRow, AuditChanges}
use rive_backend.Audit.{record_audit}
use rive_backend.Agent.Events.{Event, Actor, Reason}
use rive_backend.Agent.Mapper.{Delta, StockReason}
use rive_backend.Agent.Outbox.{
  enqueue_in_tx, claim_due, deliver, deliver_all, dispatch_due, kick, DispatchSummary, tally,
  starting,
}
use rive_backend.Orders.Status.{OrderStatus}
use rive_backend.Orders.Emit.{
  find_order_details_by_id, emit_each_stock_change, emit_stock_changes, emit_cancelled, emit_change,
  emit_status_changed, emit_created, emit_order_created, kick_agent,
}

-- The business tables are the same, and so are the payment events that were processed.
pub record SameBusiness (s t : Store) : Type 0 where
  pub orders : t.orders ≡ s.orders
  pub variants : t.variants ≡ s.variants
  pub coupons : t.coupons ≡ s.coupons
  pub events : t.paymob_events ≡ s.paymob_events

abbrev pub Frames : {A : Type 0} → M A → Type 0
Frames m = (s : Store) → SameBusiness s (m s).1

pub SameBusiness-trans : {s t u : Store} → SameBusiness s t → SameBusiness t u → SameBusiness s u
SameBusiness-trans a b = record {
  orders = b.orders ∙ a.orders;
  variants = b.variants ∙ a.variants;
  coupons = b.coupons ∙ a.coupons;
  events = b.events ∙ a.events;
}

bind_result-frame :
    {A B : Type 0} {s : Store} (r : Result A) (t : Store) (f : A → M B)
    → SameBusiness s t
    → ((a : A) → Frames (f a))
    → SameBusiness s (bind_result r t f).1
bind_result-frame (ok a) t f h k = SameBusiness-trans h (k a t)
bind_result-frame (err e) t f h k = h

pub Frames-bind :
    {A B : Type 0} (m : M A) (f : A → M B) → Frames m → ((a : A) → Frames (f a)) → Frames (m >>= f)
Frames-bind m f h k s = bind_result-frame (m s).0 (m s).1 f (h s) k

pub Frames-if :
    {A : Type 0} (b : Bool) (m n : M A) → Frames m → Frames n → Frames (if b then m else n)
Frames-if true m n h k = h
Frames-if false m n h k = k

pub Frames-pure : {A : Type 0} (a : A) → Frames (pure a)
Frames-pure a s = record { orders = refl; variants = refl; coupons = refl; events = refl }

pub Frames-throw_if : (b : Bool) (e : Failure) → Frames (throw_if b e)
Frames-throw_if b e s = record { orders = refl; variants = refl; coupons = refl; events = refl }

pub Frames-or_throw : {A : Type 0} (o : Option A) (e : Failure) → Frames (or_throw o e)
Frames-or_throw none e s = record { orders = refl; variants = refl; coupons = refl; events = refl }
Frames-or_throw (some a) e s = record {
  orders = refl;
  variants = refl;
  coupons = refl;
  events = refl;
}

module _ (db : Prisma) (w : World) where
  pub enqueue_in_tx-Frames : (src : EventSource) (e : Event) → Frames (enqueue_in_tx db w src e)
  unfolding enqueue_in_tx
  enqueue_in_tx-Frames src e s = ground arith

  pub record_audit-Frames :
      (u : Option ℕ) (a : String) (x : Text ⊎ ℕ) (c : AuditChanges)
      → Frames (record_audit db w u a x c)
  unfolding record_audit
  record_audit-Frames u a x c s = ground arith

  claim_due-Frames : (limit now : ℕ) → Frames (claim_due db w limit now)
  unfolding claim_due
  claim_due-Frames limit now s = record {
    orders = refl;
    variants = refl;
    coupons = refl;
    events = refl;
  }

  deliver-Frames : (r : OutboxRow) → Frames (deliver db w r)
  unfolding deliver
  deliver-Frames r s =
      elim (Bool-cases (db.matched (λ (x : OutboxRow). x.id == r.id) s.outbox == 0)) [
        | inl e ↦ rw e (record { orders = refl; variants = refl; coupons = refl; events = refl })
        | inr e ↦ rw e (record { orders = refl; variants = refl; coupons = refl; events = refl })
      ]

  deliver_all-Frames :
      (rows : List OutboxRow) (sum : DispatchSummary) → Frames (deliver_all db w rows sum)
  unfolding deliver_all
  deliver_all-Frames [] sum = Frames-pure sum
  deliver_all-Frames (r ∷ rows) sum =
      Frames-bind (deliver db w r) (λ o. deliver_all db w rows (tally o sum)) (deliver-Frames r)
        (λ o. deliver_all-Frames rows (tally o sum))

  dispatch_due-Frames : (limit now : ℕ) → Frames (dispatch_due db w limit now)
  unfolding dispatch_due
  dispatch_due-Frames limit now s = elim (Bool-cases w.sending_enabled) [
    | inl e ↦
        rw (e, dispatch_due)
          (Frames-bind (claim_due db w (max 1 (min limit 200)) now)
            (λ rows. deliver_all db w rows (starting true (length rows))) (claim_due-Frames _ now)
            (λ rows. deliver_all-Frames rows _) s)
    | inr e ↦ rw (e, dispatch_due) (Frames-pure (starting false 0) s)
  ]

  pub kick-Frames : Frames (kick db w)
  unfolding kick
  kick-Frames s = dispatch_due-Frames 10 w.now s

  pub kick_agent-Frames : Frames (kick_agent db w)
  unfolding kick_agent
  kick_agent-Frames = Frames-if _ _ _ kick-Frames (Frames-pure tt)

  pub find_order_details_by_id-Frames : (id : ℕ) → Frames (find_order_details_by_id db w id)
  unfolding find_order_details_by_id
  find_order_details_by_id-Frames id s = ground arith

  emit_each_stock_change-Frames :
      (vs : List Variant) (items : List OrderItem) (sign : ℕ → Delta) (r : StockReason) (n : Text)
      → Frames (emit_each_stock_change db w vs items sign r n)
  unfolding emit_each_stock_change
  emit_each_stock_change-Frames [] items sign r n = Frames-pure tt
  emit_each_stock_change-Frames (v ∷ vs) items sign r n =
      Frames-bind (enqueue_in_tx db w _ _) _ (enqueue_in_tx-Frames _ _)
        (λ _. emit_each_stock_change-Frames vs items sign r n)

  emit_stock_changes-Frames :
      (items : List OrderItem) (sign : ℕ → Delta) (r : StockReason) (n : Text)
      → Frames (emit_stock_changes db w items sign r n)
  unfolding emit_stock_changes
  emit_stock_changes-Frames items sign r n s = elim (Bool-cases w.has_agent) [
    | inl e ↦ rw (e, emit_stock_changes) (emit_each_stock_change-Frames _ items sign r n s)
    | inr e ↦ rw (e, emit_stock_changes) (Frames-pure tt s)
  ]

  emit_cancelled-Frames :
      (o : Order) (a : Actor) (r : Option Reason) → Frames (emit_cancelled db w o a r)
  unfolding emit_cancelled
  emit_cancelled-Frames o a r =
      Frames-bind (enqueue_in_tx db w _ _) _ (enqueue_in_tx-Frames _ _)
        (λ _. emit_stock_changes-Frames _ _ _ _)

  emit_change-Frames :
      (o : Order) (old : OrderStatus) (a : Actor) (r : Option Reason)
      → Frames (emit_change db w o old a r)
  unfolding emit_change
  emit_change-Frames o old a r =
      Frames-bind (enqueue_in_tx db w _ _) _ (enqueue_in_tx-Frames _ _)
        (λ _. Frames-if _ _ _ (emit_cancelled-Frames o a r) (Frames-pure tt))

  pub emit_status_changed-Frames :
      (id : ℕ) (old : OrderStatus) (a : Actor) (r : Option Reason)
      → Frames (emit_status_changed db w id old a r)
  unfolding emit_status_changed
  emit_status_changed-Frames id old a r = Frames-if _ _ _ (Frames-pure tt) (
      Frames-bind (find_order_details_by_id db w id) _ (find_order_details_by_id-Frames id)
        (λ o. Frames-if _ _ _ (Frames-pure tt) (emit_change-Frames o old a r)))

  emit_created-Frames : (o : Order) → Frames (emit_created db w o)
  unfolding emit_created
  emit_created-Frames o s =
      Frames-bind (enqueue_in_tx db w _ _) (λ _. emit_stock_changes db w o.items _ _ _)
        (enqueue_in_tx-Frames _ _) (λ _. emit_stock_changes-Frames _ _ _ _) s

  pub emit_order_created-Frames : (o : Order) → Frames (emit_order_created db w o)
  unfolding emit_order_created
  emit_order_created-Frames o = Frames-if _ _ _ (emit_created-Frames o) (Frames-pure tt)
