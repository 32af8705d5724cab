-- ===== src/Agent/Outbox/Lease.antt =====
-- The lease of a claim (src/agent-events/agent-events.service.ts).
use rive_backend.Base.{
  ℕ, ◌+◌, ◌<◌, ◌≡◌, ◌||◌, ◌==◌, eq_of_==, refl, sym, ap, any, leb, Bool, true, false, not, List, [],
  ◌∷◌, arith, all, keep, take, zero, suc, Bool-cases, inl, inr, Result, ok,
}
use rive_backend.Db.{Prisma, IsPrisma, tables, on_every_db, update_where}
use rive_backend.Store.{World, Store, OutboxRow, OutboxStatus}
use rive_backend.Agent.Outbox.{
  claim_due, claim_lease_ms, is_due, is_among, insert_by_age, order_by_age,
}

-- The rows that a claim returns.
abbrev pub rows_of : Result (List OutboxRow) × Store → List OutboxRow
rows_of (ok rows, s) = rows
rows_of (_, s) = []

module _ (p : OutboxRow → Bool) where
  all-insert :
      (r : OutboxRow) (rows : List OutboxRow)
      → p r ≡ true
      → all p rows ≡ true
      → all p (insert_by_age r rows) ≡ true
  unfolding insert_by_age
  all-insert r [] h k = ground arith
  all-insert r (q ∷ rows) h k = ground (arith, all-insert r rows)

  pub all-order : (rows : List OutboxRow) → all p rows ≡ true → all p (order_by_age rows) ≡ true
  unfolding order_by_age
  all-order [] h = refl
  all-order (r ∷ rows) h =
      all-insert r (order_by_age rows) (ground arith) (all-order rows (ground arith))

  pub all-take : (n : ℕ) (rows : List OutboxRow) → all p rows ≡ true → all p (take n rows) ≡ true
  all-take zero rows h = refl
  all-take (suc n) [] h = refl
  all-take (suc n) (r ∷ rows) h = ground (arith, all-take n rows)

abbrev leased : ℕ → OutboxRow → OutboxRow
leased now r = record r { status = OutboxStatus.sending; next_try_at = now + claim_lease_ms }

-- A row that was not claimed first, or whose next attempt is not before the end of that lease.
abbrev is_kept : ℕ → List OutboxRow → OutboxRow → Bool
is_kept end first r = not (is_among first r) || leb end r.next_try_at

abbrev IsKept : ℕ → List OutboxRow → List OutboxRow → Type 0
IsKept end first rows = all (is_kept end first) rows ≡ true

among-leased :
    (now : ℕ) (first : List OutboxRow) (r : OutboxRow)
    → is_among first (leased now r) ≡ is_among first r
unfolding is_among
among-leased now first r = refl

first-IsKept :
    (now : ℕ) (first rows : List OutboxRow)
    → IsKept (now + claim_lease_ms) first (update_where (is_among first) (leased now) rows)
first-IsKept now first [] = refl
first-IsKept now first (r ∷ rows) =
    ground (arith, among-leased now first r, first-IsKept now first rows)

-- A row that is due before the end of the lease is not among those claimed first.
due-not_among :
    (end later : ℕ) (first : List OutboxRow) (r : OutboxRow)
    → later < end
    → is_kept end first r ≡ true
    → is_due later r ≡ true
    → is_among first r ≡ false
unfolding is_due
due-not_among end later first r early kept due = ground arith

due-free :
    (end later : ℕ) (first rows : List OutboxRow)
    → later < end
    → IsKept end first rows
    → all (λ r. not (is_among first r)) (keep (is_due later) rows) ≡ true
due-free end later first [] early kept = refl
due-free end later first (r ∷ rows) early kept = elim (Bool-cases (is_due later r)) [
  | inl e ↦
      rw (e, due-not_among end later first r early (ground arith) e)
        (due-free end later first rows early (ground arith))
  | inr e ↦ rw e (due-free end later first rows early (ground arith))
]

same-among :
    (first : List OutboxRow) (c r : OutboxRow)
    → (c.id == r.id) ≡ true
    → is_among first r ≡ is_among first c
unfolding is_among
same-among first c r same =
    ap (λ (k : ℕ). any (λ (x : OutboxRow). x.id == k) first) (sym (eq_of_== c.id r.id same))

-- Rows claimed later, none of which was claimed first, are not among the first by their key.
free-among :
    (first claimed : List OutboxRow) (r : OutboxRow)
    → all (λ c. not (is_among first c)) claimed ≡ true
    → is_among claimed r ≡ true
    → is_among first r ≡ false
unfolding is_among
free-among first [] r free among = cc
free-among first (c ∷ claimed) r free among = elim (Bool-cases (c.id == r.id)) [
  | inl e ↦ ground (arith, same-among first c r e)
  | inr e ↦ free-among first claimed r (ground arith) (ground arith)
]

again-IsKept :
    (end later : ℕ) (first claimed rows : List OutboxRow)
    → all (λ c. not (is_among first c)) claimed ≡ true
    → IsKept end first rows
    → IsKept end first (update_where (is_among claimed) (leased later) rows)
again-IsKept end later first claimed [] free kept = refl
again-IsKept end later first claimed (r ∷ rows) free kept =
    let rest = again-IsKept end later first claimed rows free (ground arith) in
    elim (Bool-cases (is_among claimed r)) [
      | inl e ↦ rw (e, among-leased later first r, free-among first claimed r free e) rest
      | inr e ↦ rw e (ground (arith, rest))
    ]

-- Claims of workers, each with its world, its limit and its time.
pub record Claim : Type 0 where
  pub world : World
  pub limit : ℕ
  pub at : ℕ

abbrev pub claim : Prisma → Claim → Store → Result (List OutboxRow) × Store
claim db c s = claim_due db c.world c.limit c.at s

abbrev pub after_claims : Prisma → List Claim → Store → Store
after_claims db [] s = s
after_claims db (c ∷ cs) s = after_claims db cs (claim db c s).1

-- Every claim is before the time.
abbrev pub AllBefore : ℕ → List Claim → Type 0
AllBefore end [] = Unit {0}
AllBefore end (c ∷ cs) = (c.at < end) × AllBefore end cs

claim-free :
    (end : ℕ) (first : List OutboxRow) (c : Claim) (s : Store)
    → c.at < end
    → IsKept end first s.outbox
    → all (λ r. not (is_among first r)) (rows_of (claim tables c s)) ≡ true
unfolding claim_due
claim-free end first c s early kept =
    let free : OutboxRow → Bool = λ r. not (is_among first r) in
    let due = keep (is_due c.at) s.outbox in
    all-take free c.limit (order_by_age due)
      (all-order free due (due-free end c.at first s.outbox early kept))

claim-IsKept :
    (end : ℕ) (first : List OutboxRow) (c : Claim) (s : Store)
    → c.at < end
    → IsKept end first s.outbox
    → IsKept end first (claim tables c s).1.outbox
unfolding claim_due
claim-IsKept end first c s early kept =
    again-IsKept end c.at first (rows_of (claim tables c s)) s.outbox
      (claim-free end first c s early kept) kept

after_claims-IsKept :
    (end : ℕ) (first : List OutboxRow) (cs : List Claim) (s : Store)
    → AllBefore end cs
    → IsKept end first s.outbox
    → IsKept end first (after_claims tables cs s).outbox
after_claims-IsKept end first [] s early kept = kept
after_claims-IsKept end first (c ∷ cs) s early kept =
    after_claims-IsKept end first cs (claim tables c s).1 early.1
      (claim-IsKept end first c s early.0 kept)

abbrev Excludes : Prisma → Type 0
Excludes db =
    (a b : Claim) (between : List Claim) (s : Store)
    → AllBefore (a.at + claim_lease_ms) between
    → b.at < a.at + claim_lease_ms
    → let first = claim db a s in
      let last = claim db b (after_claims db between first.1) in
      all (λ r. not (is_among (rows_of first) r)) (rows_of last) ≡ true

tables-lease : Excludes tables
unfolding claim_due
tables-lease a b between s early late =
    let first = claim tables a s in
    let end = a.at + claim_lease_ms in
    claim-free end (rows_of first) b (after_claims tables between first.1) late (
      after_claims-IsKept end (rows_of first) between first.1 early
        (first-IsKept a.at (rows_of first) s.outbox))

-- Where workers only claim, with no delivery or other write to the outbox between: a claim, after
-- whatever number of other claims, all of them and itself before the lease of a first claim ends,
-- has no row in common with that first claim.
pub claim_due-exclusive :
    (db : Prisma)
    → IsPrisma db
    → (a b : Claim) (between : List Claim) (s : Store) → AllBefore (a.at + claim_lease_ms) between
    → b.at < a.at + claim_lease_ms
    → let first = claim db a s in
      let last = claim db b (after_claims db between first.1) in
      all (λ r. not (is_among (rows_of first) r)) (rows_of last) ≡ true
claim_due-exclusive = on_every_db Excludes tables-lease
