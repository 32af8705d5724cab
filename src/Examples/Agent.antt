-- ===== src/Examples/Agent.antt =====
-- What the theorems on the outbox say of three events.
use rive_backend.Base.{ℕ, ◌≡◌, true, false, not, none, [], ◌∷◌, arith, all, keep}
use rive_backend.Db.{tables, tables-IsPrisma}
use rive_backend.Store.{Store, OutboxRow, OutboxStatus, EventSource, answered}
use rive_backend.Agent.Events.{Event}
use rive_backend.Agent.Mapper.{Delta, StockReason, to_stock_changed}
use rive_backend.Agent.Outbox.{settle_delivery, claim_lease_ms, is_among, dispatch_due, cleanup}
use rive_backend.Agent.Outbox.Lease.{rows_of, Claim, claim, after_claims, claim_due-exclusive}
use rive_backend.Agent.Outbox.Retry.{
  Accounts, Settled, dispatch_due-Accounts, settle_delivery-Settled,
}
use rive_backend.Agent.Outbox.Cleanup.{is_open, cleanup-keeps_open}
use rive_backend.Orders.Frames.{SameBusiness}
use rive_backend.Examples.Shop.{shirt, shop, monday}

abbrev one_back : Event
one_back = Event.stock_changed (to_stock_changed shirt (Delta.up 1) StockReason.cancel none)

-- Three events that wait in the outbox.
abbrev event_row : ℕ → ℕ → OutboxRow
event_row id due = record {
  id = id;
  source = EventSource.backend;
  payload = one_back;
  status = OutboxStatus.pending;
  attempts = 0;
  next_try_at = due;
  last_error = none;
  delivered_at = none;
  created_at = due;
}

abbrev waiting : Store
waiting = record shop { outbox = event_row 0 100 ∷ event_row 1 200 ∷ event_row 2 400000 ∷ [] }

abbrev claim_at : ℕ → Claim
claim_at time = record { world = monday; limit = 1; at = time }

-- Three workers take one event each.
claim_due-exclusive_example :
    let first = claim tables (claim_at 1000) waiting in
    let last = claim tables (claim_at 300999) (after_claims tables (claim_at 2000 ∷ []) first.1) in
    all (λ r. not (is_among (rows_of first) r)) (rows_of last) ≡ true
unfolding claim_lease_ms
claim_due-exclusive_example =
    claim_due-exclusive tables tables-IsPrisma (claim_at 1000) (claim_at 300999)
      (claim_at 2000 ∷ []) waiting (omega arith, tt) (omega arith)

dispatch_due-Accounts_example : Accounts 50 (dispatch_due tables monday 50 1000 waiting)
dispatch_due-Accounts_example = dispatch_due-Accounts tables tables-IsPrisma monday 50 1000 waiting

cleanup-keeps_open_example :
    (keep is_open (cleanup tables monday 9000000000 waiting).1.outbox ≡ keep is_open waiting.outbox)
    × SameBusiness waiting (cleanup tables monday 9000000000 waiting).1
cleanup-keeps_open_example = cleanup-keeps_open tables tables-IsPrisma monday 9000000000 waiting

settle_delivery-Settled_example :
    let out = settle_delivery 1000 false 3 (answered 503) (event_row 0 100) in
    Settled 1000 3 out × ((out.1.id ≡ 0) × (out.1.payload ≡ one_back) × (out.1.attempts ≡ 3))
settle_delivery-Settled_example =
    settle_delivery-Settled 1000 false 2 (answered 503) (event_row 0 100)
