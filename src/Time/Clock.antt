-- ===== src/Time/Clock.antt =====
-- utils/helpers/time-of-day.ts. A zero-padded `HH:MM` or `HH:MM:SS` string is its two or three
-- numbers; JavaScript's `<` on two such strings compares these from the left, and a string that
-- ends first is the smaller.
use asima_backend.Base.{
  ℕ, ◌+◌, ◌*◌, ◌/◌, ◌%◌, ◌<◌, Bool, true, false, ◌&&◌, ◌||◌, Option, none, some, ltb, ◌==◌,
  same_option, or_else,
}

pub record TimeOfDay : Type 0 where
  pub hh : ℕ
  pub mm : ℕ
  pub ss : Option ℕ  -- none: the string is `HH:MM`

-- A string that the column type and the validation of the requests let through.
pub record IsTime (t : TimeOfDay) : Type 0 where
  pub minutes : t.mm < 60
  pub seconds : or_else t.ss 0 < 60

abbrev lt_seconds : Option ℕ → Option ℕ → Bool
lt_seconds none none = false
lt_seconds none (some _) = true
lt_seconds (some _) none = false
lt_seconds (some a) (some b) = ltb a b

-- `a < b` on the strings.
abbrev pub time_lt : TimeOfDay → TimeOfDay → Bool
time_lt a b =
    ltb a.hh b.hh || (a.hh == b.hh && (ltb a.mm b.mm || (a.mm == b.mm && lt_seconds a.ss b.ss)))

-- `a === b` on the strings.
abbrev pub same_time : TimeOfDay → TimeOfDay → Bool
same_time a b = a.hh == b.hh && (a.mm == b.mm && same_option a.ss b.ss)

abbrev pub to_seconds : TimeOfDay → ℕ
to_seconds t = t.hh * 3600 + t.mm * 60 + or_else t.ss 0

-- The argument is in half seconds: a split instant may fall between two seconds, and `Math.round`
-- rounds it up.
abbrev pub to_clock : ℕ → TimeOfDay
to_clock half_seconds =
    let s = (half_seconds + 1) / 2 in
    record { hh = s / 3600; mm = s % 3600 / 60; ss = some (s % 60) }
