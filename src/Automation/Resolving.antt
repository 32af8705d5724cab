-- ===== src/Automation/Resolving.antt =====
-- An approval is resolved once.
use Prim.Native.String.{String}
use rive_backend.Base.{
  ℕ, ◌≡◌, refl, false, some, ◌==◌, find, Action, Result, ok, err, bad_request, subst, Bool-cases,
  Option-cases, inl, inr,
}
use rive_backend.Db.{Prisma, IsPrisma, tables, on_every_db}
use rive_backend.Db.Keys.{find-changed, find-holds}
use rive_backend.Automation.{
  PendingApproval, ApprovalStatus, Workflows, Moment, is_pending, record_change, find_approval,
  resolved, resolve, approve_pending_approval, reject_pending_approval,
}

-- What an administrator says to an approval.
pub data Verdict : Type 0 where
  approve reject : Verdict

abbrev pub decide : Prisma → Moment → Verdict → ℕ → ℕ → Action Workflows PendingApproval
decide db w Verdict.approve id user = approve_pending_approval db w id user
decide db w Verdict.reject id user = reject_pending_approval db w id user

-- The approval is found, and it is resolved.
abbrev IsResolved : ℕ → Workflows → Type 0
IsResolved id t =
    (a : PendingApproval) × (find (λ (b : PendingApproval). b.id == id) t.approvals ≡ some a)
    × (is_pending a.status ≡ false)

abbrev OnReturn : (Workflows → Type 0) → Result PendingApproval × Workflows → Type 0
OnReturn P (ok a, t) = P t
OnReturn P (err e, t) = Unit {0}

module _ (w : Moment) where
  resolve-IsResolved :
      (status : ApprovalStatus) (action : String) (id user : ℕ) (s : Workflows)
      → is_pending status ≡ false
      → OnReturn (IsResolved id) (resolve tables w status action id user s)
  unfolding resolve record_change
  resolve-IsResolved status action id user s final =
      elim (Option-cases (find_approval tables w id s)) [
        | inl e ↦ rw e tt
        | inr (a, e) ↦ elim (Bool-cases (is_pending a.status)) [
          | inr p ↦ rw (e, p) tt
          | inl p ↦
              let found =
                find-changed (λ (b : PendingApproval). b.id == id)
                  (λ (b : PendingApproval). b.id == id) (resolved tables w status user) s.approvals
                  a (λ b. refl) e
                  (find-holds (λ (b : PendingApproval). b.id == id) s.approvals a e) in
              elim (Bool-cases w.audit_up) [
                | inl up ↦ rw (e, p, up) (resolved tables w status user a, found, final)
                | inr up ↦ rw (e, p, up) (resolved tables w status user a, found, final)
              ]
        ]
      ]

  decide-IsResolved :
      (v : Verdict) (id user : ℕ) (s : Workflows)
      → OnReturn (IsResolved id) (decide tables w v id user s)
  unfolding approve_pending_approval reject_pending_approval
  decide-IsResolved Verdict.approve id user s =
      resolve-IsResolved ApprovalStatus.approved "automation.pending_approval.approve" id user s
        refl
  decide-IsResolved Verdict.reject id user s =
      resolve-IsResolved ApprovalStatus.rejected "automation.pending_approval.reject" id user s refl

  resolve-refused :
      (status : ApprovalStatus) (action : String) (id user : ℕ) (t : Workflows)
      → IsResolved id t
      → resolve tables w status action id user t
        ≡ (err (bad_request "Pending approval has already been resolved"), t)
  unfolding resolve
  resolve-refused status action id user t (a, found, final) = rw (found, final) refl

  decide-refused :
      (v : Verdict) (id user : ℕ) (t : Workflows)
      → IsResolved id t
      → decide tables w v id user t
        ≡ (err (bad_request "Pending approval has already been resolved"), t)
  unfolding approve_pending_approval reject_pending_approval
  decide-refused Verdict.approve id user t h =
      resolve-refused ApprovalStatus.approved "automation.pending_approval.approve" id user t h
  decide-refused Verdict.reject id user t h =
      resolve-refused ApprovalStatus.rejected "automation.pending_approval.reject" id user t h

abbrev DecidesOnce : Prisma → Type 0
DecidesOnce db =
    (w w' : Moment) (v v' : Verdict) (id user user' : ℕ) (s t : Workflows) (a : PendingApproval)
    → decide db w v id user s ≡ (ok a, t)
    → decide db w' v' id user' t
      ≡ (err (bad_request "Pending approval has already been resolved"), t)

tables-DecidesOnce : DecidesOnce tables
tables-DecidesOnce w w' v v' id user user' s t a done =
    decide-refused w' v' id user' t
      (subst (OnReturn (IsResolved id)) done (decide-IsResolved w v id user s))

-- An approval is resolved once: after it was approved or rejected, to approve or to reject it is a
-- bad request, and changes nothing.
pub decide-once :
    (db : Prisma)
    → IsPrisma db
    → (w w' : Moment) (v v' : Verdict) (id user user' : ℕ) (s t : Workflows) (a : PendingApproval)
    → decide db w v id user s ≡ (ok a, t)
    → decide db w' v' id user' t
      ≡ (err (bad_request "Pending approval has already been resolved"), t)
decide-once = on_every_db DecidesOnce tables-DecidesOnce
