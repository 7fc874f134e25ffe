-- ===== src/Db.antt =====
-- The state that the use-cases share: the tables of the database, the objects of the attachment
-- storage, and the events that were published.
use asima_backend.Base.{ℕ, Option, List, Action, find, ◌&&◌, ◌==◌, is_none}
use asima_backend.Access.{User}
use asima_backend.Chain.{ApprovalChain}
use asima_backend.Schedule.{WorkScheduleRecord, ScheduleEvent}
use asima_backend.Leave.{LeaveRequestRecord, LeaveEvent}
use asima_backend.Allocation.{LeaveAllocationRecord, AllocationEvent}
use asima_backend.Correction.{TimeCorrectionRequestRecord, CorrectionEvent}
use asima_backend.Entry.{TimeEntryRecord, EntryEvent}
use asima_backend.Storage.{Attachment, ObjectKey}
use asima_backend.Compensation.{CompensationRecord, CompensationAuditRecord}

-- One counter stands for the sequences that number the rows of the tables.
pub record Db : Type 0 where
  pub next_id : ℕ
  pub users : List User
  pub chains : List ApprovalChain
  pub schedules : List WorkScheduleRecord
  pub leaves : List LeaveRequestRecord
  pub allocations : List LeaveAllocationRecord
  pub attachments : List Attachment
  pub objects : List ObjectKey
  pub corrections : List TimeCorrectionRequestRecord
  pub entries : List TimeEntryRecord
  pub compensations : List CompensationRecord
  pub audits : List CompensationAuditRecord
  pub schedule_events : List ScheduleEvent
  pub leave_events : List LeaveEvent
  pub allocation_events : List AllocationEvent
  pub correction_events : List CorrectionEvent
  pub entry_events : List EntryEvent

-- The instant of a call, and the calendar date that it falls on in the business time zone and in
-- UTC.
pub record Instant : Type 0 where
  pub now : ℕ
  pub today : ℕ
  pub utc_today : ℕ

abbrev pub Use : Type 0 → Type 0
Use A = Action Db A

-- `users.findById`
abbrev pub find_user : ℕ → Db → Option User
find_user id db = find (λ u. u.id == id && is_none u.deleted_at) db.users
