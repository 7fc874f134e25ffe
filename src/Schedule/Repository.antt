-- ===== src/Schedule/Repository.antt =====
-- The reads of work-schedules/persistence/repositories/work-schedule.repository.ts. `findOne` and
-- `find` pass over soft-deleted rows.
use asima_backend.Base.{ℕ, ◌==◌, ◌&&◌, is_none, List, Option, filter, find}
use asima_backend.Schedule.Record.{WorkScheduleRecord}

unfoldable pub find_active_for_employee : ℕ → List WorkScheduleRecord → List WorkScheduleRecord
find_active_for_employee employee_id =
    filter (λ r. r.employee_id == employee_id && (is_none r.effective_to && is_none r.deleted_at))

unfoldable pub find_active_for_employee_day :
    ℕ → ℕ → List WorkScheduleRecord → Option WorkScheduleRecord
find_active_for_employee_day employee_id day = find (λ r.
    r.employee_id == employee_id
    && (r.day_of_week == day && (is_none r.effective_to && is_none r.deleted_at)))

unfoldable pub find_by_id : ℕ → List WorkScheduleRecord → Option WorkScheduleRecord
find_by_id id = find (λ r. r.id == id && is_none r.deleted_at)
