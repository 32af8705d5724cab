-- ===== src/Payment/Guards.antt =====
-- Who a webhook, a checkout and a refund of src/payment/paymob.service.ts are refused to.
use rive_backend.Base.{
  ◌≡◌, ◌≢◌, refl, true, false, Option, some, [], ◌∷◌, err, arith, Bool-cases, inl, inr, bad_request,
}
use Prim.Native.String.{String}
use rive_backend.Base.Text.{Text, eq_of_text_eq, is_empty}
use rive_backend.Db.{Prisma}
use rive_backend.Store.{Store, World}
use rive_backend.Util.Ownership.{timing_safe_string_equal}
use rive_backend.Payment.Gateway.{Gateway, Notice, Body, calculate_hmac}
use rive_backend.Payment.Webhook.{handle_notice, handle_webhook, received_hmac}

-- Two texts that compare as equal are equal.
eq_of_timing_safe : (s t : Text) → timing_safe_string_equal (some s) (some t) ≡ true → s ≡ t
unfolding timing_safe_string_equal
eq_of_timing_safe [] t h = ground arith
eq_of_timing_safe (c ∷ s) [] h = ground arith
eq_of_timing_safe (c ∷ s) (d ∷ t) h = eq_of_text_eq (c ∷ s) (d ∷ t) h

differ-timing_safe : (s t : Text) → s ≢ t → timing_safe_string_equal (some s) (some t) ≡ false
differ-timing_safe s t h = elim (Bool-cases (timing_safe_string_equal (some s) (some t))) [
  | inl e ↦ absurd (h (eq_of_timing_safe s t e))
  | inr e ↦ e
]

-- A notice whose signature is not that of its contents, in whatever case of letters, is refused
-- with a `bad_request`, and nothing is written.
pub handle_webhook-forged :
    (db : Prisma) (w : World) (g : Gateway) (n : Notice) (signature : Option Text) (s : Store)
    → w.lower (calculate_hmac g n) ≢ w.lower (received_hmac db w g signature n)
    → (m : String) × (handle_webhook db w g (Body.notice n) signature s ≡ (err (bad_request m), s))
unfolding handle_webhook handle_notice
handle_webhook-forged db w g n signature s forged = elim (Bool-cases (is_empty g.hmac_secret)) [
  | inl e ↦ ("Paymob HMAC secret not configured", rw e refl)
  | inr e ↦ elim (Bool-cases (is_empty (received_hmac db w g signature n))) [
    | inl f ↦ ("HMAC signature missing", rw (e, f) refl)
    | inr f ↦ (
      "Webhook verification failed",
      rw
          (
            e,
            f,
            differ-timing_safe (w.lower (calculate_hmac g n))
                (w.lower (received_hmac db w g signature n)) forged,
          )
          refl,
    )
  ]
]
