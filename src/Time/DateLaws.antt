-- ===== src/Time/DateLaws.antt =====
-- The list of the dates of a range.
use asima_backend.Base.{ℕ, zero, suc, ◌+◌, ◌≤◌, ◌≡◌, refl, All, length, arith}
use asima_backend.Time.Dates.{dates_from}

pub dates_from-bounds :
    (lo hi n d : ℕ) → lo ≤ d → d + n ≤ hi + 1 → All (λ x. (lo ≤ x) × (x ≤ hi)) (dates_from n d)
dates_from-bounds lo hi zero d h k = tt
dates_from-bounds lo hi (suc n) d h k =
    ((h, omega arith), dates_from-bounds lo hi n (d + 1) (omega arith) (omega arith))

pub length-dates_from : (n d : ℕ) → length (dates_from n d) ≡ n
length-dates_from zero d = refl
length-dates_from (suc n) d = omega (arith, length-dates_from n (d + 1))
