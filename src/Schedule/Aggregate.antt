-- ===== src/Schedule/Aggregate.antt =====
-- work-schedules/domain/work-schedule.aggregate.ts and its value objects `WorkWindow` and `Break`.
use asima_backend.Base.{
  ℕ, ◌+◌, ◌*◌, not, Option, none, some, List, [], ◌∷◌, ◌++◌, Result, ok, err, Field, expected_out,
  break_start, ltb, if◌then◌else◌,
}
use asima_backend.Time.{Date, TimeOfDay, time_lt, to_seconds}
use asima_backend.Schedule.Record.{WorkScheduleRecord}

pub data ScheduleEvent : Type 0 where
  created_event : (schedule_id employee_id day_of_week : ℕ) (effective_from : Date) → ScheduleEvent
  ended_event : (schedule_id employee_id : ℕ) (effective_to : Date) → ScheduleEvent

-- The errors carry the field of the 422: the window's is `expected_out`.
-- `new WorkWindow`: the strings are compared.
work_window : TimeOfDay → TimeOfDay → Result Field (Unit {0})
work_window t_in t_out = if not (time_lt t_in t_out) then err expected_out else ok tt

-- `new Break`: minutes are never negative here.
new_break : ℕ → Option TimeOfDay → Result Field (Unit {0})
new_break minutes none = if ltb 0 minutes then err break_start else ok tt
new_break minutes (some _) = ok tt

break_within_window : TimeOfDay → TimeOfDay → ℕ → Option TimeOfDay → Result Field (Unit {0})
break_within_window t_in t_out minutes none = ok tt
break_within_window t_in t_out minutes (some start) =
    if ltb (to_seconds start) (to_seconds t_in)
    then err break_start
    else if ltb (to_seconds t_out) (to_seconds start + minutes * 60)
    then err break_start
    else ok tt

abbrev then_check : Result Field (Unit {0}) → Result Field (Unit {0}) → Result Field (Unit {0})
then_check (ok _) r = r
then_check (err f) r = err f

-- `WorkSchedule.assertSchedule`, and what the constructor of the aggregate checks.
unfoldable pub assert_schedule :
    TimeOfDay → TimeOfDay → ℕ → Option TimeOfDay → Result Field (Unit {0})
unfolding work_window new_break break_within_window
assert_schedule t_in t_out minutes start =
    then_check (work_window t_in t_out)
      (then_check (new_break minutes start) (break_within_window t_in t_out minutes start))

-- The aggregate is the record and the buffer of its events.
pub record WorkSchedule : Type 0 where
  pub p : WorkScheduleRecord
  pub events : List ScheduleEvent

abbrev reconstituted : WorkScheduleRecord → Result Field (Unit {0}) → Result Field WorkSchedule
reconstituted p (ok _) = ok (record { p = p; events = [] })
reconstituted p (err f) = err f

unfoldable pub reconstitute : WorkScheduleRecord → Result Field WorkSchedule
unfolding assert_schedule
reconstitute p =
    reconstituted p (assert_schedule p.expected_in p.expected_out p.break_minutes p.break_start)

unfoldable pub end_logically : WorkSchedule → Date → WorkSchedule
end_logically w effective_to = record {
  p = record w.p { effective_to = some effective_to };
  events = w.events ++ ended_event w.p.id w.p.employee_id effective_to ∷ [];
}
