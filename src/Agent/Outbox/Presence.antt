-- ===== src/Agent/Outbox/Presence.antt =====
-- The rows that `claimDue` of src/agent-events/agent-events.service.ts returns are in the outbox, and
-- a delivery removes none.
use rive_backend.Base.{
  ℕ, ◌+◌, ◌≡◌, refl, Bool, true, false, List, [], ◌∷◌, ◌==◌, arith, all, keep, length, ltb, ok,
}
use rive_backend.Db.{tables, update_where}
use rive_backend.Db.Keys.{has_key, has_key-update}
use rive_backend.Store.{World, Store, OutboxRow, Reply}
use rive_backend.Agent.Outbox.{
  claim_due, is_due, order_by_age, settle_delivery, deliver, Delivery, max_body_bytes,
}
use rive_backend.Agent.Outbox.Lease.{all-order, all-take, rows_of}

abbrev has_row : List OutboxRow → ℕ → Bool
has_row t k = has_key (λ (r : OutboxRow). r.id) k t

-- Every row has its key in the outbox.
abbrev pub ArePresent : List OutboxRow → List OutboxRow → Type 0
ArePresent rows outbox = all (λ r. has_row outbox r.id) rows ≡ true

pub present-matched :
    (k : ℕ) (t : List OutboxRow)
    → has_row t k ≡ true
    → (length (keep (λ (r : OutboxRow). r.id == k) t) == 0) ≡ false
present-matched k [] h = cc
present-matched k (r ∷ t) h = ground (arith, present-matched k t)

-- An outbox with the same keys.
same-ArePresent :
    (rows t u : List OutboxRow)
    → ((k : ℕ) → has_row u k ≡ has_row t k)
    → ArePresent rows t
    → ArePresent rows u
same-ArePresent [] t u same h = refl
same-ArePresent (r ∷ rows) t u same h = ground (arith, same r.id, same-ArePresent rows t u same)

more-ArePresent :
    (rows t : List OutboxRow) (q : OutboxRow) → ArePresent rows t → ArePresent rows (q ∷ t)
more-ArePresent [] t q h = refl
more-ArePresent (r ∷ rows) t q h = ground (arith, more-ArePresent rows t q)

own-ArePresent : (t : List OutboxRow) → ArePresent t t
own-ArePresent [] = refl
own-ArePresent (r ∷ t) = ground (arith, more-ArePresent t t r (own-ArePresent t))

all-keep : (p q : OutboxRow → Bool) (t : List OutboxRow) → all q t ≡ true → all q (keep p t) ≡ true
all-keep p q [] h = refl
all-keep p q (r ∷ t) h = ground (arith, all-keep p q t)

settle-keeps_id :
    (now : ℕ) (big : Bool) (attempts : ℕ) (reply : Reply) (r : OutboxRow)
    → (settle_delivery now big attempts reply r).1.id ≡ r.id
unfolding settle_delivery
settle-keeps_id now big attempts reply r = ground arith

module _ (w : World) where
  pub claimed-ArePresent :
      (limit now : ℕ) (s : Store)
      → ArePresent
          (rows_of (claim_due tables w limit now s))
          (claim_due tables w limit now s).1.outbox
  unfolding claim_due
  claimed-ArePresent limit now s =
      let rows = rows_of (claim_due tables w limit now s) in
      let due = keep (is_due now) s.outbox in
      let there : OutboxRow → Bool = λ r. has_row s.outbox r.id in
      same-ArePresent rows s.outbox (claim_due tables w limit now s).1.outbox
        (λ k. has_key-update (λ (r : OutboxRow). r.id) _ _ k s.outbox (λ r. refl))
        (all-take there limit (order_by_age due)
          (all-order there due (all-keep (is_due now) there s.outbox (own-ArePresent s.outbox))))

  -- What a delivery of a row that is there returns and writes.
  pub deliver-there :
      (r : OutboxRow) (s : Store)
      → has_row s.outbox r.id ≡ true
      → let put : OutboxRow → Delivery × OutboxRow = λ x.
        settle_delivery w.now
          (ltb max_body_bytes (w.body_bytes r.payload))
          (r.attempts + 1)
          (w.post r)
          x in
        deliver tables w r s ≡ (
          ok (put r).0,
          record s {
            outbox = update_where (λ (x : OutboxRow). x.id == r.id) (λ x. (put x).1) s.outbox;
          },
        )
  unfolding deliver
  deliver-there r s there = rw (present-matched r.id s.outbox there) refl

  pub settled-ArePresent :
      (rows : List OutboxRow) (p : OutboxRow → Bool) (big : Bool) (attempts : ℕ) (reply : Reply)
      → (t : List OutboxRow) → ArePresent rows t
      → ArePresent rows (update_where p (λ x. (settle_delivery w.now big attempts reply x).1) t)
  settled-ArePresent rows p big attempts reply t h =
      let put : OutboxRow → OutboxRow = λ x. (settle_delivery w.now big attempts reply x).1 in
      same-ArePresent rows t (update_where p put t)
        (λ k.
          has_key-update (λ (x : OutboxRow). x.id) p put k t
            (λ x. settle-keeps_id w.now big attempts reply x))
        h
