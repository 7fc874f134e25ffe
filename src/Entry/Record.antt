-- ===== src/Entry/Record.antt =====
-- time-entries/domain/time-entry.ts, time-entries.constants.ts and the domain events.
use asima_backend.Base.{ℕ, Bool, true, false, Option}
use asima_backend.Time.{Date}
use asima_backend.Request.{Text}

pub data EntrySource : Type 0 where
  manual biometric admin correction : EntrySource

pub data EntryStatus : Type 0 where
  open_entry confirmed : EntryStatus

-- Instants are milliseconds.
pub record TimeEntryRecord : Type 0 where
  pub id : ℕ
  pub employee_id : ℕ
  pub work_date : Date
  pub time_in : ℕ
  pub time_out : Option ℕ
  pub source : EntrySource
  pub status : EntryStatus
  pub notes : Option Text
  pub created_by : Option ℕ
  pub updated_by : Option ℕ
  pub deleted_by : Option ℕ
  pub deleted_at : Option ℕ

pub data EntryEvent : Type 0 where
  opened : (entry_id employee_id : ℕ) (work_date : Date) → EntryEvent
  closed : (entry_id employee_id : ℕ) → EntryEvent
  corrected : (entry_id employee_id : ℕ) → EntryEvent

abbrev pub is_open : EntryStatus → Bool
is_open open_entry = true
is_open confirmed = false

-- `PUNCH_COOLDOWN_MINUTES`
abbrev pub punch_cooldown_minutes : ℕ
punch_cooldown_minutes = 5
