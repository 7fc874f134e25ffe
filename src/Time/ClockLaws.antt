-- ===== src/Time/ClockLaws.antt =====
-- Seconds of the day and `HH:MM:SS` strings are two views of the same time.
use asima_backend.Base.{ℕ, ◌+◌, ◌*◌, ◌<◌, ◌≡◌, some, ltb, arith}
use asima_backend.Time.Clock.{IsTime, time_lt, to_seconds, to_clock}

-- Printing a number of seconds and reading it back gives the number.
pub to_seconds-to_clock : (n : ℕ) → to_seconds (to_clock (n * 2)) ≡ n
to_seconds-to_clock n = omega arith

-- What is printed has minutes and seconds below 60.
pub to_clock-IsTime : (n : ℕ) → IsTime (to_clock n)
to_clock-IsTime n = omega arith

-- Between times that carry seconds, the order of the strings is the order of the seconds.
pub time_lt-full :
    (a b c d e f : ℕ)
    → b < 60
    → c < 60
    → e < 60
    → f < 60
    → time_lt (record { hh = a; mm = b; ss = some c }) (record { hh = d; mm = e; ss = some f })
      ≡ ltb (a * 3600 + b * 60 + c) (d * 3600 + e * 60 + f)
time_lt-full a b c d e f hb hc he hf = ground arith
