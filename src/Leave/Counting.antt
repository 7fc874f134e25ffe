-- ===== src/Leave/Counting.antt =====
-- What a range charges, against the list of its dates.
use asima_backend.Base.{
  ℕ, zero, suc, ◌+◌, ◌-◌, ◌*◌, ◌≤◌, ◌≡◌, ◌≢◌, ◌↔◌, Bool, true, false, Option, none, some, List, ok,
  err, internal, arith, length, filter, find, find_sound, any_of_find-none, length-filter-le,
  Option-cases, inl, inr, ◌==◌,
}
use asima_backend.Time.{Date, weekday_of, dates_from, dates_in_range}
use asima_backend.Time.DateLaws.{length-dates_from}
use asima_backend.Schedule.{WorkScheduleRecord}
use asima_backend.Leave.Record.{LeaveType, DayPortion, full}
use asima_backend.Leave.DayCount.{
  SubmittableRange, is_workday, count_from, count_against, whole_day_only, half_day_window,
  assert_submittable_range,
}

-- The dates of a range on which the employee is scheduled.
abbrev pub workdays_between : List WorkScheduleRecord → Date → Date → List Date
workdays_between rows start end = filter (is_workday rows) (dates_in_range start end)

count_from-filter :
    (rows : List WorkScheduleRecord) (n d count : ℕ)
    → count_from rows n d count ≡ count + length (filter (is_workday rows) (dates_from n d))
unfolding count_from
count_from-filter rows zero d count = omega arith
count_from-filter rows (suc n) d count =
    ground
      (arith, count_from-filter rows n (d + 1) count, count_from-filter rows n (d + 1) (count + 1))

pub count_against-workdays :
    (rows : List WorkScheduleRecord) (start end : Date)
    → count_against rows start end ≡ length (workdays_between rows start end)
unfolding count_against
count_against-workdays rows start end =
    omega (arith, count_from-filter rows (end + 1 - start) start 0)

workdays_between-bounds :
    (rows : List WorkScheduleRecord) (start end n : ℕ)
    → end + 1 - start ≡ suc n
    → is_workday rows start ≡ true
    → (1 ≤ length (workdays_between rows start end))
      × (length (workdays_between rows start end) ≤ end + 1 - start)
workdays_between-bounds rows start end n e h =
    rw (e, h)
      (
        omega arith,
        omega (
          arith,
          length-filter-le (is_workday rows) (dates_from n (start + 1)),
          length-dates_from n (start + 1),
        ),
      )

-- A whole-day range is accepted exactly when it is not reversed, does not begin in the past, and
-- begins and ends on a scheduled day; it charges one day for each scheduled date, and no window.
pub assert_submittable_range-full :
    (today : Date) (rows : List WorkScheduleRecord) (start end : Date) (t : Option LeaveType)
    (r : SubmittableRange)
    → (assert_submittable_range today rows start end full t ≡ ok r) ↔ (
        (start ≤ end)
        × (today ≤ start)
        × (is_workday rows start ≡ true)
        × (is_workday rows end ≡ true)
        × (r ≡ record {
          working_days = length (workdays_between rows start end) * 10;
          start_time = none;
          end_time = none;
        }))
unfolding assert_submittable_range
assert_submittable_range-full today rows start end t r = (
  λ h. ground (arith, count_against-workdays rows start end),
  λ h. ground (arith, count_against-workdays rows start end),
)

-- An accepted whole-day range charges at least one day, and at most its calendar days.
pub assert_submittable_range-charge :
    (today : Date) (rows : List WorkScheduleRecord) (start end : Date) (t : Option LeaveType)
    (r : SubmittableRange)
    → assert_submittable_range today rows start end full t ≡ ok r
    → (10 ≤ r.working_days) × (r.working_days ≤ (end + 1 - start) * 10)
assert_submittable_range-charge today rows start end t r h =
    let (le, _, opens, _, e) = (assert_submittable_range-full today rows start end t r).0 h in
    rw e (omega (arith, workdays_between-bounds rows start end (end - start) (omega arith) opens))

abbrev pub is_half : DayPortion → Bool
is_half full = false
is_half _ = true

-- An accepted half-day request covers one scheduled day that is not past, of a type that may be
-- halved; it charges half a day and takes its window from the row of that weekday.
pub assert_submittable_range-half :
    (today : Date) (rows : List WorkScheduleRecord) (start end : Date) (portion : DayPortion)
    (t : Option LeaveType) (r : SubmittableRange)
    → is_half portion ≡ true
    → assert_submittable_range today rows start end portion t ≡ ok r
    → (start ≡ end)
      × (today ≤ start)
      × (whole_day_only t ≡ false)
      × (r.working_days ≡ 5)
      × ((row : WorkScheduleRecord) × (find (λ s. s.day_of_week == weekday_of start) rows
            ≡ some row)
          × (row.day_of_week ≡ weekday_of start)
          × (r.start_time ≡ some (half_day_window row portion).0)
          × (r.end_time ≡ some (half_day_window row portion).1))
unfolding assert_submittable_range
assert_submittable_range-half today rows start end full t r half h = cc
assert_submittable_range-half today rows start end portion t r half h =
    elim (Option-cases (find (λ s. s.day_of_week == weekday_of start) rows)) [
      | inl missing ↦ ground arith
      | inr (row, found) ↦
          let same_day = find_sound (λ s. s.day_of_week == weekday_of start) rows row found in
          (
            ground arith,
            ground arith,
            ground arith,
            ground arith,
            (row, found, ground arith, ground arith, ground arith),
          )
    ]

-- The cast of the row that `find` returns is safe: the check of the weekday found it before.
pub assert_submittable_range-ne-internal :
    (today : Date) (rows : List WorkScheduleRecord) (start end : Date) (portion : DayPortion)
    (t : Option LeaveType)
    → assert_submittable_range today rows start end portion t ≢ err internal
unfolding assert_submittable_range
assert_submittable_range-ne-internal today rows start end full t h = ground arith
assert_submittable_range-ne-internal today rows start end portion t h =
    ground (arith, any_of_find-none (λ s. s.day_of_week == weekday_of start) rows)
