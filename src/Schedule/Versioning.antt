-- ===== src/Schedule/Versioning.antt =====
-- The rows that work-schedules/schedule-change.service.ts ends, deletes and creates.
use asima_backend.Base.{ℕ, ◌≤◌, ◌≡◌, List, Option, some, Result, Error}
use asima_backend.Access.{User}
use asima_backend.Db.{Db}
use asima_backend.Schedule.Record.{WorkScheduleRecord}
use asima_backend.Schedule.Repository.{find_active_for_employee_day, find_by_id}
use asima_backend.Schedule.Cascade.{ScheduleChangeIntent, plan_versioning}
use asima_backend.Schedule.Change.{active_count, apply_versioning}

-- A day's rows, one active at most, and the row that the search finds is the one of its id.
pub record IsVersioned (e day : ℕ) (rows : List WorkScheduleRecord) : Type 0 where
  pub one_active : active_count e day rows ≤ 1
  pub own_id :
      (live : WorkScheduleRecord)
      → find_active_for_employee_day e day rows ≡ some live
      → find_by_id live.id rows ≡ some live

module _ (now : ℕ) (intent : ScheduleChangeIntent) (caller : User) (db : Db)
    (h : IsVersioned intent.employee_id intent.day_of_week db.schedules) where
  abbrev live_row : Option WorkScheduleRecord
  live_row = find_active_for_employee_day intent.employee_id intent.day_of_week db.schedules

  abbrev done : Result Error (Option WorkScheduleRecord) × Db
  done = apply_versioning now (plan_versioning live_row intent) intent live_row caller db
