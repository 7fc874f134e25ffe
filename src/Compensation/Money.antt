-- ===== src/Compensation/Money.antt =====
-- compensation/domain/value-objects/pay-rate.ts and `deriveHourlyRate` of
-- compensation/compensation.constants.ts. Salaries are in hundredths and rates in ten-thousandths;
-- the divisor, which the environment sets, is in hundredths of an hour (20867 by default).
use asima_backend.Base.{
  ℕ, ◌+◌, ◌*◌, ◌/◌, Bool, true, false, Option, none, some, Result, ok, err, Field, monthly_salary,
  hourly_rate,
}

-- A JavaScript number as a count of its smallest unit.
pub data ℤ : Type 0 where
  pos : ℕ → ℤ
  negsuc : ℕ → ℤ

pub record PayRate : Type 0 where
  pub monthly_salary : ℕ
  pub hourly_rate : ℕ
  pub hourly_rate_is_overridden : Bool

-- `Math.round((monthly_salary / divisor) * 10 ** 4) / 10 ** 4`: halves are rounded up.
unfoldable pub derive_hourly_rate : (divisor : ℕ) → ℕ → ℕ
derive_hourly_rate divisor monthly = (2 * monthly * 10000 + divisor) / (2 * divisor)

-- The constructor, on the figures that it is given.
unfoldable pub new_pay_rate : ℤ → ℤ → Bool → Result Field PayRate
new_pay_rate (negsuc _) _ overridden = err monthly_salary
new_pay_rate (pos monthly) (negsuc _) overridden = err hourly_rate
new_pay_rate (pos monthly) (pos hourly) overridden = ok record {
  monthly_salary = monthly;
  hourly_rate = hourly;
  hourly_rate_is_overridden = overridden;
}

-- The rate of a negative salary is never read: the constructor rejects the salary first.
derived : (divisor : ℕ) → ℤ → ℤ
unfolding derive_hourly_rate
derived divisor (pos monthly) = pos (derive_hourly_rate divisor monthly)
derived divisor (negsuc n) = negsuc n

unfoldable pub from_input : (divisor : ℕ) → ℤ → Option ℤ → Result Field PayRate
unfolding new_pay_rate derived derive_hourly_rate
from_input divisor monthly none = new_pay_rate monthly (derived divisor monthly) false
from_input divisor monthly (some hourly) = new_pay_rate monthly hourly true
