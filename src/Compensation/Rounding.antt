-- ===== src/Compensation/Rounding.antt =====
-- The rounding of compensation/compensation.constants.ts.
use asima_backend.Base.{ℕ, ◌+◌, ◌*◌, ◌≤◌, ◌<◌, arith}
use asima_backend.Compensation.Money.{derive_hourly_rate}
use native.Mathlib.Nat.{div-add-mod, mod-lt}

-- For a positive divisor of hours, the derived hourly rate is the nearest one: its distance from
-- the quotient of the salary by the hours is at most half a unit of the last place, and an exact
-- half is rounded up.
pub derive_hourly_rate-nearest :
    (divisor monthly : ℕ)
    → 0 < divisor
    → (2 * (divisor * derive_hourly_rate divisor monthly) ≤ 2 * (monthly * 10000) + divisor)
      × (2 * (monthly * 10000) < 2 * (divisor * derive_hourly_rate divisor monthly) + divisor)
unfolding derive_hourly_rate
derive_hourly_rate-nearest divisor monthly h =
    let whole = div-add-mod (2 * monthly * 10000 + divisor) (2 * divisor) in
    let positive : 0 < 2 * divisor = omega arith in
    let rest = mod-lt (2 * monthly * 10000 + divisor) positive in (grind arith, grind arith)
