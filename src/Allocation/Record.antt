-- ===== src/Allocation/Record.antt =====
-- leave-allocations/domain/leave-allocation.ts and leave-allocations.constants.ts.
use asima_backend.Base.{ℕ, Option}
use asima_backend.Request.{Text}
use asima_backend.Leave.{LeaveType}

pub data AllocationSource : Type 0 where
  default admin_grant : AllocationSource

-- `amount` is an integer column, in whole days.
pub record LeaveAllocationRecord : Type 0 where
  pub id : ℕ
  pub employee_id : ℕ
  pub leave_type : LeaveType
  pub amount : ℕ
  pub source : AllocationSource
  pub reason : Option Text
  pub granted_by : Option ℕ
  pub created_by : Option ℕ
  pub updated_by : Option ℕ
  pub deleted_at : Option ℕ

pub data AllocationEvent : Type 0 where
  granted :
      (allocation_id employee_id : ℕ)
      → LeaveType
      → (amount : ℕ) → AllocationSource
      → (granted_by : Option ℕ) → AllocationEvent
