-- ===== src/Leave/Record.antt =====
-- leave-requests/leave-requests.constants.ts, domain/leave-request.ts and the domain events.
use asima_backend.Base.{ℕ, Bool, true, false, Option}
use asima_backend.Time.{Date, TimeOfDay}
use asima_backend.Request.{Status, DecisionPath, Text}

pub data LeaveType : Type 0 where
  vacation sick bereavement birthday emergency : LeaveType

-- `leave_type === other`
abbrev pub same_type : LeaveType → LeaveType → Bool
same_type vacation vacation = true
same_type sick sick = true
same_type bereavement bereavement = true
same_type birthday birthday = true
same_type emergency emergency = true
same_type _ _ = false

pub data DayPortion : Type 0 where
  full first_half second_half : DayPortion

-- `HALF_DAY_LEAVE_TYPES.has`
abbrev pub half_day_leave_types : LeaveType → Bool
half_day_leave_types birthday = false
half_day_leave_types _ = true

-- `ATTACHMENT_REQUIRED_LEAVE_TYPES.has`
abbrev pub attachment_required_leave_types : LeaveType → Bool
attachment_required_leave_types sick = true
attachment_required_leave_types bereavement = true
attachment_required_leave_types _ = false

-- One row of `leave_requests`. `working_days` is a `numeric(4,1)`, counted here in tenths of a
-- day; instants are milliseconds. `created_at` and `updated_at` are left to the mapper.
pub record LeaveRequestRecord : Type 0 where
  pub id : ℕ
  pub employee_id : ℕ
  pub leave_type : LeaveType
  pub start_date : Date
  pub end_date : Date
  pub working_days : ℕ
  pub day_portion : DayPortion
  pub start_time : Option TimeOfDay
  pub end_time : Option TimeOfDay
  pub reason : Option Text
  pub status : Status
  pub submitted_at : ℕ
  pub decided_at : Option ℕ
  pub decided_by : Option ℕ
  pub decision_note : Option Text
  pub decision_path : Option DecisionPath
  pub cancelled_at : Option ℕ
  pub cancelled_by : Option ℕ
  pub l1_approver_id : ℕ
  pub l2_approver_id : Option ℕ
  pub attachment_id : Option ℕ
  pub created_by : Option ℕ
  pub updated_by : Option ℕ
  pub deleted_at : Option ℕ

pub data LeaveEvent : Type 0 where
  submitted : (leave_request_id employee_id l1_approver_id : ℕ) → LeaveEvent
  approved_event : (leave_request_id employee_id decided_by : ℕ) → DecisionPath → LeaveEvent
  advanced_to_l2 : (leave_request_id employee_id : ℕ) → (l2_approver_id : Option ℕ) → LeaveEvent
  rejected_event : (leave_request_id employee_id decided_by : ℕ) → LeaveEvent
  cancelled_event : (leave_request_id employee_id cancelled_by : ℕ) → LeaveEvent
