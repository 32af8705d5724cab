-- ===== src/Automation.antt =====
-- src/automation/automation.service.ts: workflows and the approvals that they wait for. The lists
-- for the administration are left out.
pub mod Resolving
use Prim.Native.String.{String}
use rive_backend.Base.{
  ℕ, Bool, true, false, not, Option, none, some, ◌==◌, if◌then◌else◌, List, Action, pure, throw_if,
  modify, ◌>>=◌, ◌>>◌, gets, or_throw, not_found, bad_request,
}
use rive_backend.Db.{Prisma}

pub data TrustLevel : Type 0 where
  suggestion_only requires_approval auto_execute : TrustLevel

pub record Workflow : Type 0 where
  pub id : ℕ
  pub is_active : Bool
  pub trust_level : TrustLevel

pub data ApprovalStatus : Type 0 where
  pending approved rejected : ApprovalStatus

pub record PendingApproval : Type 0 where
  pub id : ℕ
  pub workflow_id : ℕ
  pub status : ApprovalStatus
  pub resolved_at : Option ℕ
  pub resolved_by : Option ℕ

pub data AutomationChange : Type 0 where
  activity : Bool → AutomationChange
  trust : TrustLevel → AutomationChange
  resolution : ApprovalStatus → ℕ → AutomationChange

pub record AutomationEntry : Type 0 where
  pub user_id : ℕ
  pub action : String
  pub entity : ℕ
  pub changes : AutomationChange

pub record Workflows : Type 0 where
  pub workflows : List Workflow
  pub approvals : List PendingApproval
  pub entries : List AutomationEntry

-- The time of the request, and whether the audit log takes an entry.
pub record Moment : Type 0 where
  pub now : ℕ
  pub audit_up : Bool

abbrev pub is_pending : ApprovalStatus → Bool
is_pending ApprovalStatus.pending = true
is_pending ApprovalStatus.approved = false
is_pending ApprovalStatus.rejected = false

-- `dto?.isActive !== undefined ? dto.isActive : !workflow.isActive`
abbrev pub toggled : Option Bool → Bool → Bool
toggled none active = not active
toggled (some b) active = b

module _ (db : Prisma) (w : Moment) where
  unfoldable pub record_change : ℕ → String → ℕ → AutomationChange → Action Workflows (Unit {0})
  record_change user action entity changes s =
      let entry : AutomationEntry = record {
        user_id = user;
        action = action;
        entity = entity;
        changes = changes;
      } in
      pure tt (if w.audit_up then record s { entries = db.create entry s.entries } else s)

  abbrev pub find_workflow : ℕ → Workflows → Option Workflow
  find_workflow id s = db.find_first (λ (x : Workflow). x.id == id) s.workflows

  abbrev pub write_workflow : ℕ → (Workflow → Workflow) → Action Workflows (Unit {0})
  write_workflow id change = modify (λ s. record s {
    workflows = db.update_many (λ (x : Workflow). x.id == id) change s.workflows;
  })

  unfoldable pub toggle_workflow : ℕ → ℕ → Option Bool → Action Workflows Workflow
  unfolding record_change
  toggle_workflow id user wish = do
    found ← gets (find_workflow id)
    x ← or_throw found (not_found "Workflow not found")
    let active = toggled wish x.is_active
    write_workflow id (λ (y : Workflow). record y { is_active = active })
    record_change user "automation.workflow.toggle" id (AutomationChange.activity active)
    pure (record x { is_active = active })

  unfoldable pub update_trust_level : ℕ → TrustLevel → ℕ → Action Workflows Workflow
  unfolding record_change
  update_trust_level id level user = do
    found ← gets (find_workflow id)
    x ← or_throw found (not_found "Workflow not found")
    write_workflow id (λ (y : Workflow). record y { trust_level = level })
    record_change user "automation.workflow.trust_level_change" id (AutomationChange.trust level)
    pure (record x { trust_level = level })

  abbrev pub find_approval : ℕ → Workflows → Option PendingApproval
  find_approval id s = db.find_first (λ (a : PendingApproval). a.id == id) s.approvals

  abbrev pub resolved : ApprovalStatus → ℕ → PendingApproval → PendingApproval
  resolved status user a = record a {
    status = status;
    resolved_at = some w.now;
    resolved_by = some user;
  }

  -- The bodies of the two methods differ in the status and the action.
  unfoldable pub resolve : ApprovalStatus → String → ℕ → ℕ → Action Workflows PendingApproval
  unfolding record_change
  resolve status action id user = do
    found ← gets (find_approval id)
    a ← or_throw found (not_found "Pending approval not found")
    throw_if (not (is_pending a.status)) (bad_request "Pending approval has already been resolved")
    modify (λ s. record s {
      approvals =
          db.update_many (λ (b : PendingApproval). b.id == id) (resolved status user) s.approvals;
    })
    record_change user action id (AutomationChange.resolution status user)
    pure (resolved status user a)

  unfoldable pub approve_pending_approval : ℕ → ℕ → Action Workflows PendingApproval
  unfolding resolve
  approve_pending_approval id user =
      resolve ApprovalStatus.approved "automation.pending_approval.approve" id user

  unfoldable pub reject_pending_approval : ℕ → ℕ → Action Workflows PendingApproval
  unfolding resolve
  reject_pending_approval id user =
      resolve ApprovalStatus.rejected "automation.pending_approval.reject" id user
