-- ===== src/Agent/Outbox.antt =====
-- src/agent-events/agent-events.service.ts: the outbox of agent events, its worker and its admin
-- operations.
pub mod Retry
pub mod Lease
pub mod Cleanup
pub mod Presence
use rive_backend.Base.{
  ℕ, zero, suc, ◌+◌, ◌-◌, ◌*◌, Bool, true, false, not, ◌&&◌, ◌||◌, Option, none, some, List, [],
  ◌∷◌, ltb, leb, ◌==◌, if◌then◌else◌, take, any, length, min, max, pure, throw, record_missing,
  ◌>>=◌,
}
use rive_backend.Db.{Prisma}
use rive_backend.Agent.Events.{Event}
use rive_backend.Store.{
  World, OutboxRow, OutboxStatus, EventSource, DeliveryError, Reply, answered, raised, M,
  AgentRequest,
}

-- `AGENT_RETRY_DELAYS_MS`
unfoldable pub agent_retry_delays_ms : List ℕ
agent_retry_delays_ms = 60000 ∷ 300000 ∷ 1800000 ∷ 7200000 ∷ 21600000 ∷ 43200000 ∷ []

unfoldable pub claim_lease_ms : ℕ
claim_lease_ms = 300000

unfoldable pub max_body_bytes : ℕ
max_body_bytes = 262144

abbrev pub same_outbox_status : OutboxStatus → OutboxStatus → Bool
same_outbox_status OutboxStatus.pending OutboxStatus.pending = true
same_outbox_status OutboxStatus.sending OutboxStatus.sending = true
same_outbox_status OutboxStatus.delivered OutboxStatus.delivered = true
same_outbox_status OutboxStatus.failed OutboxStatus.failed = true
same_outbox_status _ _ = false

-- Element `i` of the delays, 0 past the end.
abbrev pub delay_at : List ℕ → ℕ → ℕ
delay_at [] i = 0
delay_at (d ∷ ds) zero = d
delay_at (d ∷ ds) (suc i) = delay_at ds i

abbrev slice_error : DeliveryError → DeliveryError
slice_error (DeliveryError.thrown t) = DeliveryError.thrown (take 500 t)
slice_error e = e

-- What a call of the agent says: its status (0 after an exception) and the error.
abbrev pub reply_status : Reply → ℕ
reply_status (answered s) = s
reply_status (raised t) = 0

abbrev reply_error : Reply → DeliveryError
reply_error (answered s) = DeliveryError.http s
reply_error (raised t) = DeliveryError.thrown t

pub data Delivery : Type 0 where
  delivered retried failed : Delivery

pub record DispatchSummary : Type 0 where
  pub enabled : Bool
  pub claimed : ℕ
  pub delivered : ℕ
  pub retried : ℕ
  pub failed : ℕ

abbrev pub starting : Bool → ℕ → DispatchSummary
starting enabled claimed = record {
  enabled = enabled;
  claimed = claimed;
  delivered = 0;
  retried = 0;
  failed = 0;
}

unfoldable pub tally : Delivery → DispatchSummary → DispatchSummary
tally Delivery.delivered s = record s { delivered = s.delivered + 1 }
tally Delivery.retried s = record s { retried = s.retried + 1 }
tally Delivery.failed s = record s { failed = s.failed + 1 }

-- `ORDER BY "createdAt" ASC`
unfoldable pub insert_by_age : OutboxRow → List OutboxRow → List OutboxRow
insert_by_age r [] = r ∷ []
insert_by_age r (q ∷ rows) =
    let rest = insert_by_age r rows in
    if leb r.created_at q.created_at then r ∷ q ∷ rows else q ∷ rest

unfoldable pub order_by_age : List OutboxRow → List OutboxRow
unfolding insert_by_age
order_by_age [] = []
order_by_age (r ∷ rows) = insert_by_age r (order_by_age rows)

-- The `WHERE` of the claim, and its inner `IN`.
unfoldable pub is_due : ℕ → OutboxRow → Bool
is_due now r =
    (same_outbox_status r.status OutboxStatus.pending
      || same_outbox_status r.status OutboxStatus.sending)
    && leb r.next_try_at now

unfoldable pub is_among : List OutboxRow → OutboxRow → Bool
is_among claimed r = any (λ (c : OutboxRow). c.id == r.id) claimed

-- What a delivery writes to the row, from the attempt's number and the agent's reply.
unfoldable pub settle_delivery : ℕ → Bool → ℕ → Reply → OutboxRow → Delivery × OutboxRow
unfolding agent_retry_delays_ms
settle_delivery now too_large attempts reply r =
    if too_large
    then (
      Delivery.failed,
      record r {
        status = OutboxStatus.failed;
        attempts = attempts;
        last_error = some DeliveryError.too_large;
      },
    )
    else if leb 200 (reply_status reply) && ltb (reply_status reply) 300
    then (
      Delivery.delivered,
      record r {
        status = OutboxStatus.delivered;
        attempts = attempts;
        delivered_at = some now;
        last_error = none;
      },
    )
    else if reply_status reply == 400
        || reply_status reply == 401
        || ltb (length agent_retry_delays_ms) attempts
    then (
      Delivery.failed,
      record r {
        status = OutboxStatus.failed;
        attempts = attempts;
        last_error = some (slice_error (reply_error reply));
      },
    )
    else (
      Delivery.retried,
      record r {
        status = OutboxStatus.pending;
        attempts = attempts;
        last_error = some (slice_error (reply_error reply));
        next_try_at = now + delay_at agent_retry_delays_ms (attempts - 1);
      },
    )

module _ (db : Prisma) (w : World) where
  -- `buildEnvelope` and the insert of `enqueue`
  unfoldable pub outbox_row : EventSource → Event → ℕ → OutboxRow
  outbox_row source e draw = record {
    id = w.random_uuid draw;
    source = source;
    payload = e;
    status = OutboxStatus.pending;
    attempts = 0;
    next_try_at = w.now;
    last_error = none;
    delivered_at = none;
    created_at = w.now;
  }

  -- `enqueueInTx`: a failed insert is undone to the savepoint and dropped.
  unfoldable pub enqueue_in_tx : EventSource → Event → M (Option ℕ)
  unfolding outbox_row
  enqueue_in_tx source e s =
      let row = outbox_row source e s.draws in
      let drawn = record s { draws = s.draws + 1 } in
      if w.outbox_up
      then pure (some row.id) (record drawn { outbox = db.create row s.outbox })
      else pure none drawn

  -- `claimDue`
  unfoldable pub claim_due : ℕ → ℕ → M (List OutboxRow)
  unfolding is_due is_among order_by_age claim_lease_ms
  claim_due limit now s =
      let claimed = take limit (order_by_age (db.find_many (is_due now) s.outbox)) in
      pure claimed (record s {
        outbox =
            db.update_many (is_among claimed)
              (λ r. record r { status = OutboxStatus.sending; next_try_at = now + claim_lease_ms })
              s.outbox;
      })

  -- `deliver`: the row that was claimed decides, and the row with its key is written, if it is there.
  unfoldable pub deliver : OutboxRow → M Delivery
  unfolding settle_delivery max_body_bytes
  deliver row s =
      let too_large = ltb max_body_bytes (w.body_bytes row.payload) in
      let settled =
        λ (r : OutboxRow). settle_delivery w.now too_large (row.attempts + 1) (w.post row) r in
      let written = record s {
        outbox =
            db.update_many (λ (r : OutboxRow). r.id == row.id) (λ (r : OutboxRow). (settled r).1)
              s.outbox;
      } in
      if db.matched (λ (r : OutboxRow). r.id == row.id) s.outbox == 0
      then throw record_missing s
      else pure ((settled row).0) written

  -- The loop of `dispatchDue`
  unfoldable pub deliver_all : List OutboxRow → DispatchSummary → M DispatchSummary
  unfolding deliver tally
  deliver_all [] summary = pure summary
  deliver_all (r ∷ rows) summary = do outcome ← deliver r; deliver_all rows (tally outcome summary)

  unfoldable pub dispatch_due : ℕ → ℕ → M DispatchSummary
  unfolding claim_due deliver_all
  dispatch_due limit now =
      if w.sending_enabled
      then (claim_due (max 1 (min limit 200)) now >>= λ rows.
          deliver_all rows (starting true (length rows)))
      else pure (starting false 0)

  -- `kick`: the deliveries go on when the caller stops waiting for them, and nothing is thrown.
  unfoldable pub kick : M (Unit {0})
  unfolding dispatch_due
  kick s = pure tt ((dispatch_due 10 w.now s).1)

  -- `cleanup`: the rows and the idempotency records that are old enough go.
  unfoldable pub is_stale : ℕ → OutboxRow → Bool
  is_stale now r =
      (same_outbox_status r.status OutboxStatus.delivered && ltb (r.created_at + 7 * 86400000) now)
      || (same_outbox_status r.status OutboxStatus.failed && ltb (r.created_at + 30 * 86400000) now)

  unfoldable pub cleanup : ℕ → M ℕ
  unfolding is_stale
  cleanup now s =
      let old = λ (q : AgentRequest). ltb (q.created_at + 7 * 86400000) now in
      pure (db.matched (is_stale now) s.outbox + db.matched old s.agent_requests) (record s {
        outbox = db.delete_many (is_stale now) s.outbox;
        agent_requests = db.delete_many old s.agent_requests;
      })

  -- `resend`
  unfoldable pub resend : ℕ → M Bool
  resend id s =
      let hit = λ (r : OutboxRow). r.id == id && same_outbox_status r.status OutboxStatus.failed in
      pure (db.matched hit s.outbox == 1) (record s {
        outbox =
            db.update_many hit
              (λ r. record r {
                status = OutboxStatus.pending;
                attempts = 0;
                next_try_at = w.now;
                last_error = none;
              })
              s.outbox;
      })
