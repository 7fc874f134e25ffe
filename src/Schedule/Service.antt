-- ===== src/Schedule/Service.antt =====
-- work-schedules/work-schedules.service.ts, over the shared state, with the writes of
-- persistence/repositories/work-schedule.repository.ts.
use asima_backend.Base.{
  ℕ, ◌+◌, Bool, false, List, [], ◌∷◌, ◌++◌, Option, none, some, Error, unprocessable,
  conflict_plain, not_found, internal, unique_violation, Change, keep, clear, put, merge, ◌>>=◌,
  ◌>>◌, pure, throw_if, gets, modify, or_throw, lift_with, map_error, update_first, ltb, or_else,
  is_none, is_some, ◌&&◌,
}
use asima_backend.Time.{Date, TimeOfDay}
use asima_backend.Db.{Use}
use asima_backend.Schedule.Record.{WorkScheduleRecord}
use asima_backend.Schedule.Aggregate.{
  ScheduleEvent, created_event, assert_schedule, reconstitute, end_logically,
}
use asima_backend.Schedule.Repository.{find_active_for_employee_day, find_by_id}
use asima_backend.Schedule.Change.{active_count, is_schedule}

pub record CreateScheduleInput : Type 0 where
  pub employee_id : ℕ
  pub day_of_week : ℕ
  pub expected_in : TimeOfDay
  pub expected_out : TimeOfDay
  pub break_minutes : ℕ
  pub break_start : Option TimeOfDay
  pub effective_from : Date
  pub effective_to : Option Date
  pub created_by : Option ℕ

pub record SchedulePatch : Type 0 where
  pub expected_in : Option TimeOfDay
  pub expected_out : Option TimeOfDay
  pub break_minutes : Option ℕ
  pub break_start : Change TimeOfDay
  pub effective_from : Option Date
  pub effective_to : Change Date
  pub updated_by : Change ℕ

abbrev pub created_row : CreateScheduleInput → (id : ℕ) → WorkScheduleRecord
created_row input id = record {
  id = id;
  employee_id = input.employee_id;
  day_of_week = input.day_of_week;
  expected_in = input.expected_in;
  expected_out = input.expected_out;
  break_minutes = input.break_minutes;
  break_start = input.break_start;
  effective_from = input.effective_from;
  effective_to = input.effective_to;
  created_by = input.created_by;
  updated_by = input.created_by;
  deleted_by = none;
  deleted_at = none;
}

abbrev pub patched : SchedulePatch → WorkScheduleRecord → WorkScheduleRecord
patched patch r = record r {
  expected_in = or_else patch.expected_in r.expected_in;
  expected_out = or_else patch.expected_out r.expected_out;
  break_minutes = or_else patch.break_minutes r.break_minutes;
  break_start = merge patch.break_start r.break_start;
  effective_from = or_else patch.effective_from r.effective_from;
  effective_to = merge patch.effective_to r.effective_to;
  updated_by = merge patch.updated_by r.updated_by;
}

-- The check `CHK_work_schedules_effective_range` fails.
abbrev is_backwards : WorkScheduleRecord → Bool
is_backwards r =
    let to = r.effective_to in elim to [ none ↦ false | some t ↦ ltb t r.effective_from ]

-- A write of `row` that turns the table into `rows`, against the check on the dates and the partial
-- unique index. The checks on the window and the break are those of `assert_schedule`.
abbrev save : WorkScheduleRecord → List WorkScheduleRecord → Use WorkScheduleRecord
save row rows = do
  throw_if (is_backwards row) internal
  throw_if (ltb 1 (active_count row.employee_id row.day_of_week rows)) unique_violation
  modify (λ db. record db { schedules = rows })
  pure row

unfoldable pub insert : CreateScheduleInput → Use WorkScheduleRecord
insert input db =
    let row = created_row input db.next_id in
    save row (db.schedules ++ row ∷ []) (record db { next_id = db.next_id + 1 })

unfoldable pub update_row : ℕ → SchedulePatch → Use WorkScheduleRecord
unfolding find_by_id
update_row id patch = do
  found ← gets (λ db. find_by_id id db.schedules)
  existing ← or_throw found internal
  rows ← gets (λ db. update_first (is_schedule id) (patched patch) db.schedules)
  save (patched patch existing) rows

abbrev publish : List ScheduleEvent → Use (Unit {0})
publish events = modify (λ db. record db { schedule_events = db.schedule_events ++ events })

abbrev unique_to_conflict : Error → Error
unique_to_conflict unique_violation = conflict_plain
unique_to_conflict e = e

unfoldable pub create : CreateScheduleInput → Use WorkScheduleRecord
unfolding assert_schedule find_active_for_employee_day insert
create input = do
  lift_with unprocessable
      (assert_schedule input.expected_in input.expected_out input.break_minutes input.break_start)
  active ←
      gets (λ db. find_active_for_employee_day input.employee_id input.day_of_week db.schedules)
  throw_if (is_none input.effective_to && is_some active) conflict_plain
  row ← map_error unique_to_conflict (insert input)
  publish (created_event row.id row.employee_id row.day_of_week row.effective_from ∷ [])
  pure row

abbrev load : ℕ → Use WorkScheduleRecord
unfolding find_by_id
load id = do found ← gets (λ db. find_by_id id db.schedules); or_throw found not_found

unfoldable pub update : ℕ → SchedulePatch → Use WorkScheduleRecord
unfolding find_by_id assert_schedule update_row
update id patch = do
  existing ← load id
  lift_with unprocessable (
      assert_schedule (or_else patch.expected_in existing.expected_in)
        (or_else patch.expected_out existing.expected_out)
        (or_else patch.break_minutes existing.break_minutes)
        (merge patch.break_start existing.break_start))
  update_row id patch

-- A nullable value that a patch always carries.
abbrev set_to : Option ℕ → Change ℕ
set_to none = clear
set_to (some a) = put a

abbrev ending : Option Date → Option ℕ → SchedulePatch
ending to updated_by = record {
  expected_in = none;
  expected_out = none;
  break_minutes = none;
  break_start = keep;
  effective_from = none;
  effective_to = set_to to;
  updated_by = set_to updated_by;
}

unfoldable pub end_schedule :
    ℕ → (effective_to : Date) → (updated_by : Option ℕ) → Use WorkScheduleRecord
unfolding find_by_id reconstitute end_logically update_row
end_schedule id effective_to updated_by = do
  existing ← load id
  throw_if (is_some existing.effective_to) conflict_plain
  aggregate ← lift_with (λ _. internal) (reconstitute existing)
  let ended_schedule = end_logically aggregate effective_to
  saved ← update_row id (ending ended_schedule.p.effective_to updated_by)
  publish ended_schedule.events
  pure saved

unfoldable pub soft_delete : (now id : ℕ) → Option ℕ → Use (Unit {0})
unfolding find_by_id
soft_delete now id deleted_by = do
  load id
  modify (λ db. record db {
    schedules =
        update_first (is_schedule id)
          (λ r. record r { deleted_by = deleted_by; deleted_at = some now }) db.schedules;
  })
