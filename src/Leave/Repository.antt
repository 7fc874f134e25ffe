-- ===== src/Leave/Repository.antt =====
-- leave-requests/persistence/repositories/leave-request.repository.ts, over the table as a list
-- in the order of submission. The queries that a query builder makes exclude deleted rows
-- themselves; `findOne` does so by itself.
use asima_backend.Base.{
  ℕ, ◌==◌, ◌&&◌, ◌||◌, Bool, not, is_none, List, Option, some, filter, find, any, ltb, leb,
  sum_where, update_where, same_option,
}
use asima_backend.Time.{Date}
use asima_backend.Request.{
  Status, pending_l1, pending_l2, approved, cancelled, is_pending, is_active_status, Text,
}
use asima_backend.Leave.Record.{LeaveType, same_type, LeaveRequestRecord}

unfoldable pub find_by_id : ℕ → List LeaveRequestRecord → Option LeaveRequestRecord
find_by_id id = find (λ r. r.id == id && is_none r.deleted_at)

-- An active row of the employee.
abbrev pub is_live_of : ℕ → LeaveRequestRecord → Bool
is_live_of employee_id r =
    r.employee_id == employee_id && (is_none r.deleted_at && is_active_status r.status)

-- `NOT (end_date < :start OR start_date > :end)`
abbrev pub meets : Date → Date → LeaveRequestRecord → Bool
meets start end r = not (ltb r.end_date start || ltb end r.start_date)

unfoldable pub find_overlapping :
    ℕ → Date → Date → List LeaveRequestRecord → List LeaveRequestRecord
find_overlapping employee_id start end = filter (λ r. is_live_of employee_id r && meets start end r)

abbrev waits_for : ℕ → Status → LeaveRequestRecord → Bool
waits_for user pending_l1 r = r.l1_approver_id == user
waits_for user pending_l2 r = same_option r.l2_approver_id (some user)
waits_for user _ r = Bool.false

unfoldable pub find_pending_for_approver : ℕ → List LeaveRequestRecord → List LeaveRequestRecord
find_pending_for_approver user = filter (λ r. is_none r.deleted_at && waits_for user r.status r)

unfoldable pub find_all_pending : List LeaveRequestRecord → List LeaveRequestRecord
find_all_pending = filter (λ r. is_none r.deleted_at && is_pending r.status)

unfoldable pub find_active_candidates : ℕ → Date → List LeaveRequestRecord → List LeaveRequestRecord
find_active_candidates employee_id from_date =
    filter (λ r. is_live_of employee_id r && leb from_date r.end_date)

abbrev pub has_id : List ℕ → ℕ → Bool
has_id ids id = any (λ i. i == id) ids

-- Flips only rows that are still active.
unfoldable pub system_cancel :
    (now : ℕ) → List ℕ → (actor_id : ℕ) → Text → List LeaveRequestRecord → List LeaveRequestRecord
system_cancel now ids actor_id note =
    update_where (λ r. has_id ids r.id && (is_active_status r.status && is_none r.deleted_at))
      (λ r. record r {
        status = cancelled;
        cancelled_at = some now;
        cancelled_by = some actor_id;
        decision_note = some note;
        updated_by = some actor_id;
      })

abbrev pub is_consumed_by : ℕ → LeaveType → LeaveRequestRecord → Bool
is_consumed_by employee_id t r = is_live_of employee_id r && same_type r.leave_type t

-- In tenths of a day.
unfoldable pub sum_consumed : ℕ → LeaveType → List LeaveRequestRecord → ℕ
sum_consumed employee_id t = sum_where (is_consumed_by employee_id t) (λ r. r.working_days)

-- The two buckets of `workingDaySumsByEmployee`: what the approved rows use and the pending reserve.
abbrev is_approved : Status → Bool
is_approved approved = Bool.true
is_approved _ = Bool.false

unfoldable pub sum_used : ℕ → LeaveType → List LeaveRequestRecord → ℕ
sum_used employee_id t =
    sum_where (λ r. is_consumed_by employee_id t r && is_approved r.status) (λ r. r.working_days)

unfoldable pub sum_reserved : ℕ → LeaveType → List LeaveRequestRecord → ℕ
sum_reserved employee_id t =
    sum_where (λ r. is_consumed_by employee_id t r && not (is_approved r.status))
      (λ r. r.working_days)
