-- ===== src/Leave/HalfDay.antt =====
-- The half-day window splits the working time of a day in two.
use Prim.Native.Nat.{min, max}
use asima_backend.Base.{ℕ, ◌+◌, ◌-◌, ◌*◌, ◌≤◌, ◌<◌, ◌≡◌, Option, none, some, ok, arith}
use asima_backend.Time.{TimeOfDay, IsTime, to_seconds}
use asima_backend.Schedule.{WorkScheduleRecord, assert_schedule}
use asima_backend.Leave.Record.{first_half, second_half}
use asima_backend.Leave.DayCount.{half_day_window}

-- The seconds of a break that lie between two instants.
abbrev break_overlap : Option TimeOfDay → (break_sec a b : ℕ) → ℕ
break_overlap none break_sec a b = 0
break_overlap (some start) break_sec a b =
    min b (to_seconds start + break_sec) - max a (to_seconds start)

-- The working time between two instants of the day: the time less the break.
abbrev pub working_seconds : WorkScheduleRecord → ℕ → ℕ → ℕ
working_seconds row a b = b - a - break_overlap row.break_start (row.break_minutes * 60) a b

abbrev BreakFits : Option TimeOfDay → (in_sec out_sec break_sec : ℕ) → Type 0
BreakFits none in_sec out_sec break_sec = break_sec ≡ 0
BreakFits (some start) in_sec out_sec break_sec =
    (in_sec ≤ to_seconds start) × (to_seconds start + break_sec ≤ out_sec)

-- The rule of the aggregate, on the seconds of the day.
pub record IsSchedulable (row : WorkScheduleRecord) : Type 0 where
  pub opens : to_seconds row.expected_in < to_seconds row.expected_out
  pub fits :
      BreakFits row.break_start
        (to_seconds row.expected_in)
        (to_seconds row.expected_out)
        (row.break_minutes * 60)

-- Two strings of one form, both with seconds: what the `time` columns give.
pub record HasSeconds (row : WorkScheduleRecord) (in_ss out_ss : ℕ) : Type 0 where
  pub in_seconds : row.expected_in.ss ≡ some in_ss
  pub out_seconds : row.expected_out.ss ≡ some out_ss
  pub in_time : IsTime row.expected_in
  pub out_time : IsTime row.expected_out

-- What `assertSchedule` lets through satisfies the rule, when the times come from the columns.
pub assert_schedule-IsSchedulable :
    (row : WorkScheduleRecord) (in_ss out_ss : ℕ)
    → HasSeconds row in_ss out_ss
    → assert_schedule row.expected_in row.expected_out row.break_minutes row.break_start ≡ ok tt
    → IsSchedulable row
unfolding assert_schedule
assert_schedule-IsSchedulable row in_ss out_ss h e = ground arith

-- On a schedule that satisfies the rule, the first half begins with the day, the second ends with
-- it, they meet at one instant, and each has half of the working time (the first the odd second).
pub half_day_window_halves :
    (row : WorkScheduleRecord)
    → IsSchedulable row
    → let first = half_day_window row first_half in
      let second = half_day_window row second_half in
      let t_in = to_seconds row.expected_in in
      let t_out = to_seconds row.expected_out in
      let split = to_seconds first.1 in
      (to_seconds first.0 ≡ t_in)
      × (first.1 ≡ second.0)
      × (to_seconds second.1 ≡ t_out)
      × (working_seconds row t_in split + working_seconds row split t_out
          ≡ t_out - t_in - row.break_minutes * 60)
      × (working_seconds row split t_out ≤ working_seconds row t_in split)
      × (working_seconds row t_in split ≤ working_seconds row split t_out + 1)
unfolding half_day_window
half_day_window_halves row h = ground arith
