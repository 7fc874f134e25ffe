-- ===== src/Chain/Record.antt =====
-- approval-chains/domain/approval-chain.ts and approval-chain-inputs.ts.
use asima_backend.Base.{ℕ, Option, List, Change}

-- One versioned assignment; `ended_at` is none while it is active.
pub record ApprovalChain : Type 0 where
  pub id : ℕ
  pub employee_id : ℕ
  pub step : ℕ
  pub approver_id : ℕ
  pub ended_at : Option ℕ
  pub created_by : Option ℕ
  pub updated_by : Option ℕ

pub record SetChainInput : Type 0 where
  pub l1_approver_id : Change ℕ
  pub l2_approver_id : Change ℕ

pub record ActiveChain : Type 0 where
  pub l1_approver_id : Option ℕ
  pub l2_approver_id : Option ℕ

pub record ChainInsert : Type 0 where
  pub employee_id : ℕ
  pub step : ℕ
  pub approver_id : ℕ
  pub created_by : Option ℕ

pub record StepChanges : Type 0 where
  pub ends : List ℕ
  pub inserts : List ChainInsert

pub record BulkReassignResult : Type 0 where
  pub reassigned : ℕ
  pub skipped : List ℕ

pub record BulkAssignInput : Type 0 where
  pub l1_approver_id : ℕ
  pub l2_approver_id : Option ℕ

-- Every employee that is skipped is so for the reason `self_approval`.
pub record BulkAssignResult : Type 0 where
  pub assigned : ℕ
  pub skipped : List ℕ
