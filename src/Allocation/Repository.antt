-- ===== src/Allocation/Repository.antt =====
-- leave-allocations/persistence/repositories/leave-allocation.repository.ts. The row lock of
-- `sumForUpdate` shows in the model as the transaction being one step.
use asima_backend.Base.{ℕ, ◌==◌, ◌&&◌, is_none, List, Bool, sum_where}
use asima_backend.Leave.{LeaveType, same_type}
use asima_backend.Allocation.Record.{LeaveAllocationRecord}

abbrev pub grants_to : ℕ → LeaveType → LeaveAllocationRecord → Bool
grants_to employee_id t a =
    a.employee_id == employee_id && (same_type a.leave_type t && is_none a.deleted_at)

-- In whole days; also the entry of `sumsByEmployee` for the type.
unfoldable pub sum_for_update : ℕ → LeaveType → List LeaveAllocationRecord → ℕ
sum_for_update employee_id t = sum_where (grants_to employee_id t) (λ a. a.amount)
