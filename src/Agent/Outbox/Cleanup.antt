-- ===== src/Agent/Outbox/Cleanup.antt =====
-- The clean-up of the outbox (src/agent-events/agent-events.service.ts).
use rive_backend.Base.{
  ℕ, ◌≡◌, refl, ap, Bool, true, false, not, ◌||◌, List, [], ◌∷◌, arith, keep, Bool-cases, inl, inr,
}
use rive_backend.Db.{Prisma, IsPrisma, tables, on_every_db}
use rive_backend.Store.{World, Store, OutboxRow, OutboxStatus}
use rive_backend.Agent.Outbox.{is_stale, cleanup, same_outbox_status}
use rive_backend.Orders.Frames.{SameBusiness}

-- A row that is still to be sent.
abbrev pub is_open : OutboxRow → Bool
is_open r =
    same_outbox_status r.status OutboxStatus.pending
    || same_outbox_status r.status OutboxStatus.sending

open_not_stale :
    (w : World) (now : ℕ) (r : OutboxRow) → is_open r ≡ true → is_stale tables w now r ≡ false
unfolding is_stale
open_not_stale w now r h = ground arith

keep-open :
    (w : World) (now : ℕ) (rows : List OutboxRow)
    → keep is_open (keep (λ r. not (is_stale tables w now r)) rows) ≡ keep is_open rows
keep-open w now [] = refl
keep-open w now (r ∷ rows) = elim (Bool-cases (is_open r)) [
  | inl e ↦ rw (open_not_stale w now r e, e) (ap (λ t. r ∷ t) (keep-open w now rows))
  | inr e ↦ elim (Bool-cases (is_stale tables w now r)) [
    | inl f ↦ rw (f, e) (keep-open w now rows)
    | inr f ↦ rw (f, e) (keep-open w now rows)
  ]
]

abbrev KeepsOpen : Prisma → Type 0
KeepsOpen db =
    (w : World) (now : ℕ) (s : Store)
    → (keep is_open (cleanup db w now s).1.outbox ≡ keep is_open s.outbox)
      × SameBusiness s (cleanup db w now s).1

tables-KeepsOpen : KeepsOpen tables
unfolding cleanup
tables-KeepsOpen w now s = (
  keep-open w now s.outbox,
  record { orders = refl; variants = refl; coupons = refl; events = refl },
)

-- The clean-up loses no event that is still to be sent, however old, and leaves orders, stock,
-- coupons and the payment events alone.
pub cleanup-keeps_open :
    (db : Prisma)
    → IsPrisma db
    → (w : World) (now : ℕ) (s : Store)
    → (keep is_open (cleanup db w now s).1.outbox ≡ keep is_open s.outbox)
      × SameBusiness s (cleanup db w now s).1
cleanup-keeps_open = on_every_db KeepsOpen tables-KeepsOpen
