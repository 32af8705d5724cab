-- ===== src/Agent/Outbox/Retry.antt =====
-- How the worker of src/agent-events/agent-events.service.ts settles a delivery, and what it
-- reports of a round.
use rive_backend.Base.{
  ℕ, zero, ◌∙◌, ◌+◌, ◌-◌, ◌≤◌, take, keep, max, min, ◌≡◌, refl, Bool, true, false, none, some, List,
  [], ◌∷◌, length, arith, Result, ok, ◌>>=◌, pure, is_some, leb, ltb, ◌==◌, ◌&&◌, ◌||◌, suc,
  if◌then◌else◌, Bool-cases, inl, inr,
}
use rive_backend.Db.{Prisma, IsPrisma, tables, on_every_db, update_where}
use rive_backend.Store.{World, Store, M, OutboxRow, OutboxStatus, Reply}
use rive_backend.Agent.Outbox.{
  Delivery, DispatchSummary, settle_delivery, deliver_all, dispatch_due, claim_due, tally,
  order_by_age, is_due, starting, agent_retry_delays_ms, delay_at, reply_status, max_body_bytes,
}
use rive_backend.Agent.Outbox.Presence.{
  ArePresent, claimed-ArePresent, deliver-there, settled-ArePresent,
}

-- What the outcome says of the row that was written.
abbrev pub Settled : ℕ → ℕ → Delivery × OutboxRow → Type 0
Settled now attempts (Delivery.delivered, r) =
    (r.status ≡ OutboxStatus.delivered) × (r.delivered_at ≡ some now) × (r.last_error ≡ none)
Settled now attempts (Delivery.retried, r) =
    (r.status ≡ OutboxStatus.pending)
    × (attempts ≤ 6)
    × (now + 60000 ≤ r.next_try_at)
    × (r.next_try_at ≤ now + 43200000)
Settled now attempts (Delivery.failed, r) =
    (r.status ≡ OutboxStatus.failed) × (is_some r.last_error ≡ true)

last : (n : ℕ) → suc n - 1 ≡ n
last n = omega arith

delay_at-bounds :
    (n : ℕ)
    → n ≤ 5
    → (60000 ≤ delay_at agent_retry_delays_ms n) × (delay_at agent_retry_delays_ms n ≤ 43200000)
unfolding agent_retry_delays_ms
delay_at-bounds zero h = (omega arith, omega arith)
delay_at-bounds (suc zero) h = (omega arith, omega arith)
delay_at-bounds (suc (suc zero)) h = (omega arith, omega arith)
delay_at-bounds (suc (suc (suc zero))) h = (omega arith, omega arith)
delay_at-bounds (suc (suc (suc (suc zero)))) h = (omega arith, omega arith)
delay_at-bounds (suc (suc (suc (suc (suc zero))))) h = (omega arith, omega arith)
delay_at-bounds (suc (suc (suc (suc (suc (suc n)))))) h = (omega arith, omega arith)

wait-bounds :
    (n : ℕ)
    → n ≤ 5
    → let wait = delay_at agent_retry_delays_ms (suc n - 1) in (60000 ≤ wait) × (wait ≤ 43200000)
wait-bounds n h = rw (last n) (delay_at-bounds n h)

-- However the agent replies, a delivery ends in one of three ways. A delivered row is marked so and
-- has no error; a row that is tried again has had at most six attempts, and is due between one
-- minute and twelve hours later; a failed row has an error. The row keeps its key and its payload,
-- and carries the number of the attempt.
pub settle_delivery-Settled :
    (now : ℕ) (big : Bool) (n : ℕ) (reply : Reply) (r : OutboxRow)
    → let out = settle_delivery now big (suc n) reply r in
      Settled now (suc n) out
      × ((out.1.id ≡ r.id) × (out.1.payload ≡ r.payload) × (out.1.attempts ≡ suc n))
unfolding settle_delivery agent_retry_delays_ms
settle_delivery-Settled now true n reply r = (((refl, refl)), (refl, refl, refl))
settle_delivery-Settled now false n reply r =
    elim (Bool-cases (leb 200 (reply_status reply) && ltb (reply_status reply) 300)) [
      | inl e ↦ rw e ((refl, refl, refl), (refl, refl, refl))
      | inr e ↦
          elim (Bool-cases
            (reply_status reply == 400 || reply_status reply == 401 || ltb 6 (suc n))) [
              | inl f ↦ rw (e, f) ((refl, refl), (refl, refl, refl))
              | inr f ↦
                  let (least, most) = wait-bounds n (ground arith) in
                  rw (e, f)
                    (
                      (refl, ground arith, omega (arith, least), omega (arith, most)),
                      (refl, refl, refl),
                    )
            ]
    ]

-- The counts of a summary, together.
abbrev pub total : DispatchSummary → ℕ
total s = s.delivered + s.retried + s.failed

tally-total :
    (d : Delivery) (s : DispatchSummary)
    → (total (tally d s) ≡ total s + 1) × ((tally d s).claimed ≡ s.claimed)
unfolding tally
tally-total Delivery.delivered s = (omega arith, refl)
tally-total Delivery.retried s = (omega arith, refl)
tally-total Delivery.failed s = (omega arith, refl)

module _ (w : World) where
  deliver_all-total :
      (rows : List OutboxRow) (sum : DispatchSummary) (s : Store)
      → ArePresent rows s.outbox
      → (t : DispatchSummary) × (((deliver_all tables w rows sum s).0 ≡ ok t)
          × ((total t ≡ total sum + length rows) × (t.claimed ≡ sum.claimed)))
  unfolding deliver_all
  deliver_all-total [] sum s h = (sum, (refl, (omega arith, refl)))
  deliver_all-total (r ∷ rows) sum s h =
      let big = ltb max_body_bytes (w.body_bytes r.payload) in
      let put : OutboxRow → Delivery × OutboxRow =
        settle_delivery w.now big (r.attempts + 1) (w.post r) in
      let hit : OutboxRow → Bool = λ x. x.id == r.id in
      let d = (put r).0 in
      let s' : Store = record s { outbox = update_where hit (λ x. (put x).1) s.outbox } in
      let there =
        settled-ArePresent w rows hit big (r.attempts + 1) (w.post r) s.outbox (ground arith) in
      let (t, (e, (k, c))) = deliver_all-total rows (tally d sum) s' there in
      let (a, b) = tally-total d sum in
      (t, (rw (deliver-there w r s (ground arith)) e, (omega (arith, k, a), c ∙ b)))

-- A summary that accounts for every row that was claimed.
abbrev pub Accounts : ℕ → Result DispatchSummary × Store → Type 0
Accounts limit r =
    (t : DispatchSummary) × ((r.0 ≡ ok t)
      × (t.claimed ≡ total t)
      × (t.claimed ≤ max 1 (min limit 200)))

Accounts-if :
    (limit : ℕ) (b : Bool) (m n : M DispatchSummary) (s : Store)
    → Accounts limit (m s)
    → Accounts limit (n s)
    → Accounts limit ((if b then m else n) s)
Accounts-if limit true m n s h k = h
Accounts-if limit false m n s h k = k

length-take_le : (n : ℕ) (rows : List OutboxRow) → length (take n rows) ≤ n
length-take_le zero rows = omega arith
length-take_le (suc n) [] = omega arith
length-take_le (suc n) (r ∷ rows) = omega (arith, length-take_le n rows)

abbrev Reports : Prisma → Type 0
Reports db =
    (w : World) (limit now : ℕ) (s : Store) → Accounts limit (dispatch_due db w limit now s)

tables-Reports : Reports tables
unfolding dispatch_due claim_due
tables-Reports w limit now s =
    let most = max 1 (min limit 200) in
    let due = order_by_age (keep (is_due now) s.outbox) in
    let rows = take most due in
    let (t, (e, (k, c))) =
      deliver_all-total w rows (starting true (length rows)) (claim_due tables w most now s).1
        (claimed-ArePresent w most now s) in
    let claimed = length-take_le most due in
    Accounts-if limit w.sending_enabled
      (claim_due tables w most now >>= λ rs. deliver_all tables w rs (starting true (length rs)))
      (pure (starting false 0)) s (t, (e, omega (arith, k, c), omega (arith, c, claimed)))
      (starting false 0, (refl, refl, omega arith))

-- A round of the worker always ends with a summary, whose deliveries, retries and failures add up
-- to the rows it claimed, 200 at most.
pub dispatch_due-Accounts :
    (db : Prisma)
    → IsPrisma db
    → (w : World) (limit now : ℕ) (s : Store) → Accounts limit (dispatch_due db w limit now s)
dispatch_due-Accounts = on_every_db Reports tables-Reports
