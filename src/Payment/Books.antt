-- ===== src/Payment/Books.antt =====
-- The webhook, the checkout and the refund of src/payment/paymob.service.ts keep the books of stock
-- and coupons; here, their steps that write neither, and the guards of a notice.
pub mod Settling
pub mod Opening
pub mod Refunding
use rive_backend.Base.{
  ℕ, ◌≡◌, refl, true, false, Option, none, some, if◌then◌else◌, ◌>>=◌, ◌>>◌, gets, pure, throw_if,
  Bool, not, Result, err, Failure, bad_request, Option-cases, inl, inr, arith,
}
use rive_backend.Base.Text.{Text, is_empty}
use rive_backend.Db.{Prisma, tables}
use rive_backend.Schema.{Order}
use rive_backend.Store.{Store, World, M, EventSource}
use rive_backend.Agent.Events.{Event}
use rive_backend.Agent.Outbox.{enqueue_in_tx}
use rive_backend.Orders.Emit.{find_order}
use rive_backend.Orders.Frames.{Frames, Frames-bind, Frames-pure, enqueue_in_tx-Frames}
use rive_backend.Payment.Gateway.{Gateway, Notice, or_empty, calculate_hmac}
use rive_backend.Payment.Webhook.{
  Receipt, emit_succeeded, emit_failed, audit_ignored, process, received_hmac, handle_notice,
}
use rive_backend.Util.Ownership.{timing_safe_string_equal}

pub Frames-gets : {A : Type 0} (f : Store → A) → Frames (gets f)
Frames-gets f s = record { orders = refl; variants = refl; coupons = refl; events = refl }

module _ (db : Prisma) (w : World) (g : Gateway) where
  tell-Frames : (src : EventSource) (e : Event) → Frames (enqueue_in_tx db w src e >> pure tt)
  tell-Frames src e =
      Frames-bind (enqueue_in_tx db w src e) (λ _. pure tt) (enqueue_in_tx-Frames db w src e)
        (λ _. Frames-pure tt)

  pub emit_succeeded-Frames :
      (id : ℕ) (transaction_id : Text) (amount : Option ℕ)
      → Frames (emit_succeeded db w g id transaction_id amount)
  unfolding emit_succeeded
  emit_succeeded-Frames id transaction_id amount s =
      elim (Option-cases (if w.has_agent then find_order db w id s else none)) [
        | inl e ↦ rw (e, emit_succeeded) (Frames-pure tt s)
        | inr (o, e) ↦ rw (e, emit_succeeded) (tell-Frames _ _ s)
      ]

  pub emit_failed-Frames :
      (id : ℕ) (transaction_id : Text) (n : Notice)
      → Frames (emit_failed db w g id transaction_id n)
  unfolding emit_failed
  emit_failed-Frames id transaction_id n s =
      elim (Option-cases (if w.has_agent then find_order db w id s else none)) [
        | inl e ↦ rw (e, emit_failed) (Frames-pure tt s)
        | inr (o, e) ↦ rw (e, emit_failed) (tell-Frames _ _ s)
      ]

  pub audit_ignored-Frames :
      (id : ℕ) (transaction_id : Text) → Frames (audit_ignored db w g id transaction_id)
  unfolding audit_ignored
  audit_ignored-Frames id transaction_id s = ground arith

-- What holds of every refusal, and of the rest, holds of a guarded action.
unless-by :
    {A : Type 0} (P : Result A × Store → Type 0) (b : Bool) (e : Failure) (m : M A) (s : Store)
    → P (err e, s)
    → P (m s)
    → P ((throw_if b e >> m) s)
unless-by P true e m s refused done = refused
unless-by P false e m s refused done = done

-- The guards of a notice.
pub handle_notice-by :
    (db : Prisma) (w : World) (g : Gateway) (n : Notice) (signature : Option Text) (s : Store)
    → (P : Result Receipt × Store → Type 0) → ((e : Failure) → P (err e, s))
    → P (process db w g (or_empty n.id) n s)
    → P (handle_notice db w g n signature s)
unfolding handle_notice
handle_notice-by db w g n signature s P refused done =
    let received = received_hmac db w g signature n in
    let forged =
      not (
        timing_safe_string_equal (some (w.lower (calculate_hmac g n))) (some (w.lower received))) in
    let no_id = is_empty (or_empty n.id) in
    let settle = process db w g (or_empty n.id) n in
    let missing = bad_request "Webhook payload missing transaction ID" in
    let failed = bad_request "Webhook verification failed" in
    let unsigned = bad_request "HMAC signature missing" in
    let unset = bad_request "Paymob HMAC secret not configured" in
    let checked = throw_if forged failed >> (throw_if no_id missing >> settle) in
    unless-by P (is_empty g.hmac_secret) unset (throw_if (is_empty received) unsigned >> checked) s
      (refused unset)
      (unless-by P (is_empty received) unsigned checked s (refused unsigned) (
        unless-by P forged failed (throw_if no_id missing >> settle) s (refused failed)
          (unless-by P no_id missing settle s (refused missing) done)))
