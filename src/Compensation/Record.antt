-- ===== src/Compensation/Record.antt =====
-- compensation/domain/compensation.ts, compensation-audit.ts and compensation.constants.ts. A
-- salary is a `numeric(12,2)` counted in hundredths, a rate a `numeric(12,4)` in ten-thousandths.
use asima_backend.Base.{ℕ, Bool, Option}
use asima_backend.Time.{Date}

pub record CompensationRecord : Type 0 where
  pub id : ℕ
  pub employee_id : ℕ
  pub monthly_salary : ℕ
  pub hourly_rate : ℕ
  pub hourly_rate_is_overridden : Bool
  pub effective_from : Date
  pub effective_to : Option Date
  pub created_by : Option ℕ
  pub updated_by : Option ℕ
  pub deleted_by : Option ℕ
  pub deleted_at : Option ℕ

pub data AuditAction : Type 0 where
  created updated deleted : AuditAction

pub record CompensationAuditRecord : Type 0 where
  pub compensation_id : ℕ
  pub employee_id : ℕ
  pub action : AuditAction
  pub before_monthly_salary : Option ℕ
  pub after_monthly_salary : Option ℕ
  pub before_hourly_rate : Option ℕ
  pub after_hourly_rate : Option ℕ
  pub before_effective_from : Option Date
  pub after_effective_from : Option Date
  pub actor_id : Option ℕ
