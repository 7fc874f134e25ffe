-- ===== src/Entry/Service.antt =====
-- time-entries/time-entries.service.ts, and the writes of the repository, over the shared state.
use asima_backend.Base.{
  ℕ, ◌+◌, ◌-◌, ◌*◌, ◌/◌, Bool, false, not, ◌&&◌, List, [], ◌∷◌, ◌++◌, Option, none, some, Result,
  ok, err, Error, unprocessable, conflict, conflict_plain, not_found, internal, unique_violation,
  too_many_requests, time_out, proposed_time_out, work_date, conflict_key, employee_id, ◌>>=◌, ◌>>◌,
  pure, throw_if, gets, modify, or_throw, lift_with, map_error, ltb, is_some, is_none, same_option,
  or_else, update_first, Change, merge, if◌then◌else◌,
}
use asima_backend.Time.{Date}
use asima_backend.Request.{Text}
use asima_backend.Db.{Db, Use, Instant}
use asima_backend.Entry.Record.{
  TimeEntryRecord, EntrySource, manual, admin, correction, EntryStatus, open_entry, EntryEvent,
  opened, punch_cooldown_minutes,
}
use asima_backend.Entry.Aggregate.{
  TimeWindow, assert_window, derive_status, TimeEntry, reconstitute, close, move_to,
}
use asima_backend.Entry.Repository.{
  is_row, find_by_id, find_open_for_employee, last_event, find_latest_for_employee,
  exists_for_employee_date, violates_one_open,
}

-- What `repository.create` is given.
pub record NewEntry : Type 0 where
  pub employee_id : ℕ
  pub work_date : Date
  pub time_in : ℕ
  pub time_out : Option ℕ
  pub source : EntrySource
  pub status : EntryStatus
  pub notes : Option Text
  pub created_by : Option ℕ

abbrev pub new_entry : NewEntry → (id : ℕ) → TimeEntryRecord
new_entry n id = record {
  id = id;
  employee_id = n.employee_id;
  work_date = n.work_date;
  time_in = n.time_in;
  time_out = n.time_out;
  source = n.source;
  status = n.status;
  notes = n.notes;
  created_by = n.created_by;
  updated_by = n.created_by;
  deleted_by = none;
  deleted_at = none;
}

-- `repository.create`
unfoldable pub create_entry : NewEntry → Use TimeEntryRecord
create_entry n db =
    let row = new_entry n db.next_id in
    let rows = db.entries ++ row ∷ [] in
    if violates_one_open n.employee_id rows
    then (err unique_violation, db)
    else (ok row, record db { next_id = db.next_id + 1; entries = rows })

-- `repository.update` of a row that is found, and `publisher.publish`.
abbrev updated :
    ℕ
    → (TimeEntryRecord → TimeEntryRecord)
    → List EntryEvent
    → Db
    → TimeEntryRecord
    → Result Error TimeEntryRecord × Db
updated id patch events db row =
    let rows = update_first (is_row id) patch db.entries in
    if violates_one_open row.employee_id rows
    then (err unique_violation, db)
    else (ok (patch row), record db { entries = rows; entry_events = db.entry_events ++ events })

unfoldable pub update_entry :
    ℕ → (TimeEntryRecord → TimeEntryRecord) → List EntryEvent → Use TimeEntryRecord
update_entry id patch events db = elim (find_by_id id db.entries) [
  | none ↦ (err internal, db)
  | some row ↦ updated id patch events db row
]

abbrev publish_opened : TimeEntryRecord → Use TimeEntryRecord
publish_opened created = do
  modify (λ db. record db {
    entry_events = db.entry_events ++ opened created.id created.employee_id created.work_date ∷ [];
  })
  pure created

-- `isUniqueViolation(err) ? … : err`
abbrev pub on_unique_violation : Error → Error → Error
on_unique_violation e unique_violation = e
on_unique_violation e other = other

-- `try { create; publish } catch`, which `punch`, `create` and `applyCorrection` share: the error is
-- the 409 that a violation of the unique index becomes.
unfoldable pub try_create : Error → NewEntry → Use TimeEntryRecord
try_create e n = map_error (on_unique_violation e) (create_entry n >>= publish_opened)

abbrev pub cooldown_ms : ℕ
cooldown_ms = punch_cooldown_minutes * 60000

-- `elapsedMs < windowMs`, where the elapsed time may be negative, and `Math.ceil` of the rest.
abbrev pub cooldown_check : ℕ → Option TimeEntryRecord → Use (Unit {0})
cooldown_check now none = pure tt
cooldown_check now (some latest) =
    throw_if (ltb now (last_event latest + cooldown_ms))
      (too_many_requests ((last_event latest + cooldown_ms - now + 999) / 1000))

unfoldable pub assert_not_in_cooldown : ℕ → ℕ → Use (Unit {0})
assert_not_in_cooldown now e = do
  latest ← gets (λ db. find_latest_for_employee e db.entries)
  cooldown_check now latest

abbrev close_patch : TimeEntry → ℕ → TimeEntryRecord → TimeEntryRecord
close_patch done actor r = record r {
  time_out = done.p.time_out;
  status = done.p.status;
  updated_by = some actor;
}

close_open : ℕ → ℕ → TimeEntryRecord → Use TimeEntryRecord
close_open now actor row = do
  aggregate ← lift_with unprocessable (reconstitute row)
  done ← lift_with unprocessable (close aggregate now)
  update_entry row.id (close_patch done actor) done.events

open_new : Instant → ℕ → Use TimeEntryRecord
open_new i actor = try_create conflict_plain (record {
  employee_id = actor;
  work_date = i.utc_today;
  time_in = i.now;
  time_out = none;
  source = manual;
  status = open_entry;
  notes = none;
  created_by = some actor;
})

abbrev toggle : Instant → ℕ → Option TimeEntryRecord → Use TimeEntryRecord
unfolding close_open open_new
toggle i actor none = open_new i actor
toggle i actor (some row) = close_open i.now actor row

unfoldable pub punch : Instant → ℕ → Use TimeEntryRecord
unfolding close_open open_new
punch i actor = do
  assert_not_in_cooldown i.now actor
  open_row ← gets (λ db. find_open_for_employee actor db.entries)
  toggle i actor open_row

pub record CreateEntryInput : Type 0 where
  pub employee_id : ℕ
  pub work_date : Date
  pub time_in : ℕ
  pub time_out : Option ℕ
  pub source : Option EntrySource
  pub notes : Option Text
  pub created_by : Option ℕ

abbrev pub created_entry : CreateEntryInput → TimeWindow → NewEntry
created_entry input window = record {
  employee_id = input.employee_id;
  work_date = input.work_date;
  time_in = input.time_in;
  time_out = input.time_out;
  source = or_else input.source admin;
  status = derive_status window;
  notes = input.notes;
  created_by = input.created_by;
}

unfoldable pub create : CreateEntryInput → Use TimeEntryRecord
create input = do
  existing ← gets (λ db. find_open_for_employee input.employee_id db.entries)
  throw_if (is_none input.time_out && is_some existing) (unprocessable employee_id)
  window ← lift_with unprocessable (assert_window input.time_in input.time_out time_out)
  try_create conflict_plain (created_entry input window)

pub record UpdateEntryInput : Type 0 where
  pub work_date : Option Date
  pub time_in : Option ℕ
  pub time_out : Change ℕ
  pub source : Option EntrySource
  pub notes : Change Text
  pub updated_by : Change ℕ

abbrev pub edit_patch : UpdateEntryInput → EntryStatus → TimeEntryRecord → TimeEntryRecord
edit_patch patch status r = record r {
  work_date = or_else patch.work_date r.work_date;
  time_in = or_else patch.time_in r.time_in;
  time_out = merge patch.time_out r.time_out;
  source = or_else patch.source r.source;
  notes = merge patch.notes r.notes;
  updated_by = merge patch.updated_by r.updated_by;
  status = status;
}

unfoldable pub update : ℕ → UpdateEntryInput → Use TimeEntryRecord
update id patch = do
  existing ← or_throw (← gets (λ db. find_by_id id db.entries)) not_found
  window ← lift_with unprocessable (
      assert_window (or_else patch.time_in existing.time_in)
        (merge patch.time_out existing.time_out) time_out)
  update_entry id (edit_patch patch (derive_status window)) []

unfoldable pub soft_delete : (now id : ℕ) → Option ℕ → Use (Unit {0})
soft_delete now id deleted_by = do
  or_throw (← gets (λ db. find_by_id id db.entries)) not_found >>= λ _. pure tt
  modify (λ db. record db {
    entries =
        update_first (is_row id) (λ r. record r { deleted_by = deleted_by; deleted_at = some now })
          db.entries;
  })

abbrev pub has_entry_on_date : ℕ → Date → Db → Bool
has_entry_on_date e date db = exists_for_employee_date e date db.entries

-- What an approved correction asks for.
pub record CorrectionInput : Type 0 where
  pub employee_id : ℕ
  pub target_entry_id : Option ℕ
  pub work_date : Date
  pub proposed_time_in : ℕ
  pub proposed_time_out : Option ℕ
  pub decided_by : Option ℕ

abbrev pub other_open : Option TimeEntryRecord → Option ℕ → Bool
other_open none except_id = false
other_open (some row) except_id = not (same_option (some row.id) except_id)

abbrev assert_no_other_open_entry : ℕ → Option ℕ → Use (Unit {0})
assert_no_other_open_entry e except_id = do
  row ← gets (λ db. find_open_for_employee e db.entries)
  throw_if (other_open row except_id) (conflict conflict_key)

abbrev pub correction_patch : CorrectionInput → TimeEntry → TimeEntryRecord → TimeEntryRecord
correction_patch input done r = record r {
  work_date = input.work_date;
  time_in = done.p.time_in;
  time_out = done.p.time_out;
  source = done.p.source;
  status = done.p.status;
  updated_by = input.decided_by;
}

correct_target : CorrectionInput → TimeWindow → ℕ → Use TimeEntryRecord
correct_target input window id = do
  target ← or_throw (← gets (λ db. find_by_id id db.entries)) not_found
  if is_none window.ends then assert_no_other_open_entry input.employee_id (some id) else pure tt
  aggregate ← lift_with (λ _. internal) (reconstitute target)
  let done = move_to aggregate window
  update_entry id (correction_patch input done) done.events

abbrev pub logged_entry : CorrectionInput → TimeWindow → NewEntry
logged_entry input window = record {
  employee_id = input.employee_id;
  work_date = input.work_date;
  time_in = input.proposed_time_in;
  time_out = input.proposed_time_out;
  source = correction;
  status = derive_status window;
  notes = none;
  created_by = input.decided_by;
}

add_log : CorrectionInput → TimeWindow → Use TimeEntryRecord
add_log input window = do
  exists ← gets (has_entry_on_date input.employee_id input.work_date)
  throw_if exists (conflict work_date)
  if is_none window.ends then assert_no_other_open_entry input.employee_id none else pure tt
  try_create (conflict conflict_key) (logged_entry input window)

abbrev by_target : CorrectionInput → TimeWindow → Option ℕ → Use TimeEntryRecord
unfolding correct_target add_log
by_target input window none = add_log input window
by_target input window (some id) = correct_target input window id

unfoldable pub apply_correction : CorrectionInput → Use TimeEntryRecord
unfolding correct_target add_log
apply_correction input = do
  window ←
      lift_with unprocessable
        (assert_window input.proposed_time_in input.proposed_time_out proposed_time_out)
  by_target input window input.target_entry_id
