-- ===== src/Examples/Automation.antt =====
-- What the theorem on approvals says of one approval.
use rive_backend.Base.{◌≡◌, refl, true, none, [], ◌∷◌, err, bad_request}
use rive_backend.Db.{tables, tables-IsPrisma}
use rive_backend.Automation.{
  PendingApproval, ApprovalStatus, Workflows, Moment, resolved, approve_pending_approval,
}
use rive_backend.Automation.Resolving.{Verdict, decide, decide-once}

abbrev moment : Moment
moment = record { now = 1000; audit_up = true }

abbrev approval : PendingApproval
approval = record {
  id = 4;
  workflow_id = 1;
  status = ApprovalStatus.pending;
  resolved_at = none;
  resolved_by = none;
}

abbrev waiting : Workflows
waiting = record { workflows = []; approvals = approval ∷ []; entries = [] }

abbrev decided : Workflows
decided = (decide tables moment Verdict.approve 4 9 waiting).1

decide-once_example :
    decide tables moment Verdict.reject 4 8 decided
    ≡ (err (bad_request "Pending approval has already been resolved"), decided)
unfolding approve_pending_approval
decide-once_example =
    decide-once tables tables-IsPrisma moment moment Verdict.approve Verdict.reject 4 9 8 waiting
      decided (resolved tables moment ApprovalStatus.approved 9 approval) refl
