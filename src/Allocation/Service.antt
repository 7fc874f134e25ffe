-- ===== src/Allocation/Service.antt =====
-- leave-allocations/leave-allocations.service.ts with its aggregate and value object, and
-- leave-requests/leave-balance.service.ts, which computes the balances from the ledger.
use asima_backend.Base.{
  ℕ, zero, suc, ◌+◌, ◌-◌, ◌*◌, List, [], ◌∷◌, ◌++◌, Option, none, some, Result, ok, err, Error,
  unprocessable, not_found, amount, ◌>>=◌, ◌>>◌, pure, gets, modify, or_throw, lift_with, map,
}
use asima_backend.Request.{Text}
use asima_backend.Access.{User}
use asima_backend.Db.{Db, Use, find_user}
use asima_backend.Leave.{
  LeaveType, vacation, sick, bereavement, birthday, emergency, sum_used, sum_reserved,
}
use asima_backend.Allocation.Record.{admin_grant, LeaveAllocationRecord, granted}
use asima_backend.Allocation.Repository.{sum_for_update}

-- A number of a request body: an integer, which may be negative (`negative n` is -(n + 1)), or not
-- an integer.
pub data RawAmount : Type 0 where
  integer : ℕ → RawAmount
  negative : ℕ → RawAmount
  fraction : RawAmount

-- `new AllocationAmount`, by `LeaveAllocation.assertGrantable`.
unfoldable pub assert_grantable : RawAmount → Result Error ℕ
assert_grantable fraction = err (unprocessable amount)
assert_grantable (negative n) = err (unprocessable amount)
assert_grantable (integer zero) = err (unprocessable amount)
assert_grantable (integer (suc n)) = ok (suc n)

-- `repository.create`
create_allocation : ℕ → LeaveType → ℕ → Option Text → User → Use LeaveAllocationRecord
create_allocation employee_id t days reason actor db =
    let row : LeaveAllocationRecord = record {
      id = db.next_id;
      employee_id = employee_id;
      leave_type = t;
      amount = days;
      source = admin_grant;
      reason = reason;
      granted_by = some actor.id;
      created_by = some actor.id;
      updated_by = some actor.id;
      deleted_at = none;
    } in
    (ok row, record db { next_id = db.next_id + 1; allocations = db.allocations ++ row ∷ [] })

unfoldable pub grant : ℕ → LeaveType → RawAmount → Option Text → User → Use LeaveAllocationRecord
unfolding create_allocation
grant employee_id t raw reason actor = do
  or_throw (← gets (find_user employee_id)) not_found >>= λ _. pure tt
  days ← lift_with (λ e. e) (assert_grantable raw)
  created ← create_allocation employee_id t days reason actor
  modify (λ db. record db {
    allocation_events =
        db.allocation_events
        ++ granted created.id created.employee_id created.leave_type created.amount created.source
            created.granted_by
          ∷ [];
  })
  pure created

-- leave-requests/domain/leave-balance.ts, in tenths of a day.
pub record LeaveBalance : Type 0 where
  pub leave_type : LeaveType
  pub allowance : ℕ
  pub used : ℕ
  pub reserved : ℕ
  pub available : ℕ

-- `Math.max(0, allowance - used - reserved)`: the subtraction of ℕ stops at 0.
unfoldable pub balance_of : Db → ℕ → LeaveType → LeaveBalance
balance_of db employee_id t =
    let allowance = sum_for_update employee_id t db.allocations * 10 in
    let used = sum_used employee_id t db.leaves in
    let reserved = sum_reserved employee_id t db.leaves in
    record {
      leave_type = t;
      allowance = allowance;
      used = used;
      reserved = reserved;
      available = allowance - used - reserved;
    }

-- `Object.values(LEAVE_TYPES)`
abbrev pub leave_types : List LeaveType
leave_types = vacation ∷ sick ∷ bereavement ∷ birthday ∷ emergency ∷ []

unfoldable pub for_employee : Db → ℕ → List LeaveBalance
unfolding balance_of
for_employee db employee_id = map (balance_of db employee_id) leave_types
