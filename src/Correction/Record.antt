-- ===== src/Correction/Record.antt =====
-- time-correction-requests/domain/time-correction-request.ts and the domain events. The two
-- `original_…` columns of the read model, which a join fills, are left out.
use asima_backend.Base.{ℕ, Option}
use asima_backend.Time.{Date}
use asima_backend.Request.{Status, DecisionPath, Text}

pub record TimeCorrectionRequestRecord : Type 0 where
  pub id : ℕ
  pub employee_id : ℕ
  pub target_entry_id : Option ℕ
  pub work_date : Date
  pub proposed_time_in : ℕ
  pub proposed_time_out : Option ℕ
  pub reason : Text
  pub status : Status
  pub submitted_at : ℕ
  pub decided_at : Option ℕ
  pub decided_by : Option ℕ
  pub decision_note : Option Text
  pub decision_path : Option DecisionPath
  pub cancelled_at : Option ℕ
  pub cancelled_by : Option ℕ
  pub l1_approver_id : ℕ
  pub l2_approver_id : Option ℕ
  pub created_by : Option ℕ
  pub updated_by : Option ℕ
  pub deleted_at : Option ℕ

pub data CorrectionEvent : Type 0 where
  submitted : (request_id employee_id l1_approver_id : ℕ) → CorrectionEvent
  approved_event : (request_id employee_id decided_by : ℕ) → DecisionPath → CorrectionEvent
  advanced_to_l2 : (request_id employee_id : ℕ) → (l2_approver_id : Option ℕ) → CorrectionEvent
  rejected_event : (request_id employee_id decided_by : ℕ) → CorrectionEvent
  cancelled_event : (request_id employee_id cancelled_by : ℕ) → CorrectionEvent
