-- ===== src/Time/Dates.antt =====
-- utils/helpers/dates.ts. A `YYYY-MM-DD` string is the number of its day, counted from 0000-01-01
-- (a Saturday); the order of the zero-padded strings is the order of the numbers, and the UTC
-- midnight of a date is a whole number of days.
use asima_backend.Base.{ℕ, zero, suc, ◌+◌, ◌-◌, ◌%◌, List, [], ◌∷◌}

abbrev pub Date : Type 0
Date = ℕ

-- `getUTCDay()`: 0 is Sunday.
abbrev pub weekday_of : Date → ℕ
weekday_of d = (d + 6) % 7

abbrev pub day_before : Date → Date
day_before d = d - 1

-- The `while (cur <= last)` loop, by the number of days that are left.
abbrev pub dates_from : ℕ → Date → List Date
dates_from zero d = []
dates_from (suc n) d = d ∷ dates_from n (d + 1)

-- Every date from `start` to `end`, both included; none if `end` is before `start`.
abbrev pub dates_in_range : Date → Date → List Date
dates_in_range start end = dates_from (end + 1 - start) start
