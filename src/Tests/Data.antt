-- ===== src/Tests/Data.antt =====
-- An office of three: an employee with a chain of two approvers and a week of working days.
use Prim.Native.String.{String}
use asima_backend.Base.{ℕ, true, false, List, [], ◌∷◌, none, some}
use asima_backend.Time.{Date, TimeOfDay}
use asima_backend.Request.{Status, pending_l1, pending_l2, Actor}
use asima_backend.Access.{User}
use asima_backend.Chain.{ApprovalChain}
use asima_backend.Schedule.{WorkScheduleRecord}
use asima_backend.Leave.{vacation, full, LeaveRequestRecord}
use asima_backend.Leave.Service.{SubmitLeaveInput}
use asima_backend.Allocation.{LeaveAllocationRecord, admin_grant}
use asima_backend.Entry.{TimeEntryRecord, manual, confirmed}
use asima_backend.Correction.{TimeCorrectionRequestRecord}
use asima_backend.Storage.{ObjectStore}
use asima_backend.Db.{Db, Instant}

abbrev pub monday : Date
monday = 700002

-- Nine in the morning of the Monday.
abbrev pub morning : Instant
morning = record { now = 50000000; today = 700002; utc_today = 700002 }

abbrev person : ℕ → List String → User
person id codes = record {
  id = id;
  system_admin = false;
  is_active = true;
  permissions = some codes;
  deleted_at = none;
}

abbrev pub employee : User
employee = person 7 []

abbrev pub lead : User
lead = person 8 ("LEAVE:Approve" ∷ "TIME_CORRECTION:Approve" ∷ [])

abbrev pub manager : User
manager = person 9 ("LEAVE:ApproveAny" ∷ "TIME_CORRECTION:ApproveAny" ∷ [])

abbrev assigned : ℕ → ℕ → ℕ → ApprovalChain
assigned id step approver = record {
  id = id;
  employee_id = 7;
  step = step;
  approver_id = approver;
  ended_at = none;
  created_by = none;
  updated_by = none;
}

abbrev clock : ℕ → TimeOfDay
clock h = record { hh = h; mm = 0; ss = some 0 }

abbrev pub workday : ℕ → ℕ → WorkScheduleRecord
workday id day = record {
  id = id;
  employee_id = 7;
  day_of_week = day;
  expected_in = clock 9;
  expected_out = clock 18;
  break_minutes = 60;
  break_start = some (clock 12);
  effective_from = 690000;
  effective_to = none;
  created_by = none;
  updated_by = none;
  deleted_by = none;
  deleted_at = none;
}

abbrev pub week : List WorkScheduleRecord
week = workday 1 1 ∷ workday 2 2 ∷ workday 3 3 ∷ workday 4 4 ∷ workday 5 5 ∷ []

abbrev pub five_days : LeaveAllocationRecord
five_days = record {
  id = 1;
  employee_id = 7;
  leave_type = vacation;
  amount = 5;
  source = admin_grant;
  reason = none;
  granted_by = some 9;
  created_by = some 9;
  updated_by = some 9;
  deleted_at = none;
}

abbrev pub request : Status → LeaveRequestRecord
request s = record {
  id = 20;
  employee_id = 7;
  leave_type = vacation;
  start_date = 700010;
  end_date = 700011;
  working_days = 20;
  day_portion = full;
  start_time = none;
  end_time = none;
  reason = none;
  status = s;
  submitted_at = 40000000;
  decided_at = none;
  decided_by = none;
  decision_note = none;
  decision_path = none;
  cancelled_at = none;
  cancelled_by = none;
  l1_approver_id = 8;
  l2_approver_id = some 9;
  attachment_id = none;
  created_by = some 7;
  updated_by = some 7;
  deleted_at = none;
}

-- A shift of last week, and its correction.
abbrev pub shift : TimeEntryRecord
shift = record {
  id = 30;
  employee_id = 7;
  work_date = 699999;
  time_in = 10000000;
  time_out = some 20000000;
  source = manual;
  status = confirmed;
  notes = none;
  created_by = some 7;
  updated_by = some 7;
  deleted_by = none;
  deleted_at = none;
}

abbrev pub correction_request : TimeCorrectionRequestRecord
correction_request = record {
  id = 40;
  employee_id = 7;
  target_entry_id = some 30;
  work_date = 699999;
  proposed_time_in = 9000000;
  proposed_time_out = some 21000000;
  reason = 97 ∷ [];
  status = pending_l2;
  submitted_at = 40000000;
  decided_at = none;
  decided_by = none;
  decision_note = none;
  decision_path = none;
  cancelled_at = none;
  cancelled_by = none;
  l1_approver_id = 8;
  l2_approver_id = some 9;
  created_by = some 7;
  updated_by = some 7;
  deleted_at = none;
}

abbrev pub office : Db
office = record {
  next_id = 100;
  users = employee ∷ lead ∷ manager ∷ [];
  chains = assigned 1 1 8 ∷ assigned 2 2 9 ∷ [];
  schedules = week;
  leaves = request pending_l1 ∷ [];
  allocations = five_days ∷ [];
  attachments = [];
  objects = [];
  corrections = correction_request ∷ [];
  entries = shift ∷ [];
  compensations = [];
  audits = [];
  schedule_events = [];
  leave_events = [];
  allocation_events = [];
  correction_events = [];
  entry_events = [];
}

abbrev pub store : ObjectStore
store = record {
  accepts = λ _. true;
  deletes = λ _. true;
  decodes = λ _. true;
  uuid = 1;
  max_file_mb = 5;
}

-- Monday to Wednesday of the same week.
abbrev pub three_days : SubmitLeaveInput
three_days = record {
  employee_id = 7;
  leave_type = vacation;
  start_date = 700002;
  end_date = 700004;
  day_portion = none;
  reason = none;
}

abbrev pub chain_actor : ℕ → Actor
chain_actor id = record {
  user_id = id;
  is_system_admin = false;
  can_approve = true;
  can_approve_any = false;
  can_delete = false;
}
