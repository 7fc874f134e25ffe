-- ===== src/Leave/DayCount.antt =====
-- leave-requests/leave-day-count.service.ts: which ranges can be submitted, what they charge, and
-- the clock window of a half day. `today` and the active schedule rows are arguments.
use asima_backend.Base.{
  ℕ, zero, suc, ◌+◌, ◌-◌, ◌*◌, Bool, true, false, not, Option, none, some, List, Result, ok, err,
  Error, unprocessable, internal, start_date, end_date, day_portion, ltb, leb, ◌==◌, any, find,
  if◌then◌else◌,
}
use asima_backend.Time.{Date, weekday_of, TimeOfDay, to_seconds, to_clock}
use asima_backend.Schedule.{WorkScheduleRecord}
use asima_backend.Leave.Record.{LeaveType, DayPortion, full, first_half, half_day_leave_types}

pub record SubmittableRange : Type 0 where
  pub working_days : ℕ  -- in tenths of a day
  pub start_time : Option TimeOfDay
  pub end_time : Option TimeOfDay

-- `workdays.has(weekdayOf(date))`, the set being that of the rows' weekdays.
abbrev pub is_workday : List WorkScheduleRecord → Date → Bool
is_workday rows d = any (λ r. r.day_of_week == weekday_of d) rows

-- The loop of `countAgainst`, by the number of days that are left.
unfoldable pub count_from : List WorkScheduleRecord → ℕ → Date → ℕ → ℕ
count_from rows zero d count = count
count_from rows (suc n) d count =
    count_from rows n (d + 1) (if is_workday rows d then count + 1 else count)

unfoldable pub count_against : List WorkScheduleRecord → Date → Date → ℕ
unfolding count_from
count_against rows start end = count_from rows (end + 1 - start) start 0

-- Where the work of the day is half done, in half seconds. Multiplied out, `halfWork <= preBreak`
-- is `in + out <= 2 * break_start + break`, and without a break start it always holds.
before_break : ℕ → ℕ → ℕ → Option TimeOfDay → Bool
before_break in_sec out_sec break_sec none = true
before_break in_sec out_sec break_sec (some start) =
    leb (in_sec + out_sec) (2 * to_seconds start + break_sec)

unfoldable pub split_half_seconds : WorkScheduleRecord → ℕ
unfolding before_break
split_half_seconds row =
    let in_sec = to_seconds row.expected_in in
    let out_sec = to_seconds row.expected_out in
    let break_sec = row.break_minutes * 60 in
    if before_break in_sec out_sec break_sec row.break_start
    then in_sec + out_sec - break_sec
    else in_sec + out_sec + break_sec

unfoldable pub half_day_window : WorkScheduleRecord → DayPortion → TimeOfDay × TimeOfDay
unfolding split_half_seconds
half_day_window row first_half =
    (to_clock (to_seconds row.expected_in * 2), to_clock (split_half_seconds row))
half_day_window row _ =
    (to_clock (split_half_seconds row), to_clock (to_seconds row.expected_out * 2))

abbrev pub whole_day_only : Option LeaveType → Bool
whole_day_only none = false
whole_day_only (some t) = not (half_day_leave_types t)

abbrev half_day_of : DayPortion → Option WorkScheduleRecord → Result Error SubmittableRange
half_day_of portion none = err internal
half_day_of portion (some row) =
    let w = half_day_window row portion in
    ok (record { working_days = 5; start_time = some w.0; end_time = some w.1 })

half_day_range :
    List WorkScheduleRecord
    → Date
    → Date
    → DayPortion
    → Option LeaveType
    → Result Error SubmittableRange
unfolding half_day_window
half_day_range rows start end portion leave_type =
    if not (start == end)
    then err (unprocessable day_portion)
    else if whole_day_only leave_type
    then err (unprocessable day_portion)
    else half_day_of portion (find (λ r. r.day_of_week == weekday_of start) rows)

range_of :
    List WorkScheduleRecord
    → Date
    → Date
    → DayPortion
    → Option LeaveType
    → Result Error SubmittableRange
unfolding half_day_range count_against
range_of rows start end full leave_type = ok (record {
  working_days = count_against rows start end * 10;
  start_time = none;
  end_time = none;
})
range_of rows start end portion leave_type = half_day_range rows start end portion leave_type

unfoldable pub assert_submittable_range :
    (today : Date)
    → List WorkScheduleRecord
    → Date
    → Date
    → DayPortion
    → Option LeaveType
    → Result Error SubmittableRange
unfolding range_of
assert_submittable_range today rows start end portion leave_type =
    if ltb end start
    then err (unprocessable end_date)
    else if ltb start today
    then err (unprocessable start_date)
    else if not (is_workday rows start)
    then err (unprocessable start_date)
    else if not (is_workday rows end)
    then err (unprocessable end_date)
    else range_of rows start end portion leave_type
