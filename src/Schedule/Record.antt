-- ===== src/Schedule/Record.antt =====
-- work-schedules/domain/work-schedule.ts.
use asima_backend.Base.{ℕ, Option}
use asima_backend.Time.{Date, TimeOfDay}

pub record WorkScheduleRecord : Type 0 where
  pub id : ℕ
  pub employee_id : ℕ
  pub day_of_week : ℕ
  pub expected_in : TimeOfDay
  pub expected_out : TimeOfDay
  pub break_minutes : ℕ
  pub break_start : Option TimeOfDay
  pub effective_from : Date
  pub effective_to : Option Date
  pub created_by : Option ℕ
  pub updated_by : Option ℕ
  pub deleted_by : Option ℕ
  pub deleted_at : Option ℕ
