-- ===== src/Entry/Repository.antt =====
-- time-entries/persistence/repositories/time-entry.repository.ts. Where its own queries do not,
-- `findOne` and `count` exclude the deleted rows.
use asima_backend.Base.{
  ℕ, ◌==◌, ◌&&◌, Bool, is_none, List, [], ◌∷◌, Option, none, some, find, any, ltb, sum_where,
  or_else, if◌then◌else◌,
}
use asima_backend.Time.{Date}
use asima_backend.Entry.Record.{TimeEntryRecord, is_open}

abbrev pub is_row : ℕ → TimeEntryRecord → Bool
is_row id r = r.id == id && is_none r.deleted_at

unfoldable pub find_by_id : ℕ → List TimeEntryRecord → Option TimeEntryRecord
find_by_id id = find (is_row id)

abbrev pub is_open_of : ℕ → TimeEntryRecord → Bool
is_open_of employee_id r =
    r.employee_id == employee_id && (is_open r.status && is_none r.deleted_at)

unfoldable pub find_open_for_employee : ℕ → List TimeEntryRecord → Option TimeEntryRecord
find_open_for_employee employee_id = find (is_open_of employee_id)

-- `time_out ?? time_in`: the key of the order, and the last punch on the row.
abbrev pub last_event : TimeEntryRecord → ℕ
last_event r = or_else r.time_out r.time_in

abbrev pub is_live_entry_of : ℕ → TimeEntryRecord → Bool
is_live_entry_of employee_id r = r.employee_id == employee_id && is_none r.deleted_at

abbrev pub later : TimeEntryRecord → Option TimeEntryRecord → TimeEntryRecord
later r none = r
later r (some best) = if ltb (last_event r) (last_event best) then best else r

-- The row that is first in the descending order of the key.
unfoldable pub find_latest_for_employee : ℕ → List TimeEntryRecord → Option TimeEntryRecord
find_latest_for_employee e [] = none
find_latest_for_employee e (r ∷ rows) =
    let rest = find_latest_for_employee e rows in
    if is_live_entry_of e r then some (later r rest) else rest

unfoldable pub exists_for_employee_date : ℕ → Date → List TimeEntryRecord → Bool
exists_for_employee_date e work_date = any (λ r. is_live_entry_of e r && r.work_date == work_date)

-- The partial unique index `IDX_time_entries_one_open_per_employee`: a statement after which two
-- rows share the key is refused.
abbrev pub open_count : ℕ → List TimeEntryRecord → ℕ
open_count e = sum_where (is_open_of e) (λ _. 1)

abbrev pub violates_one_open : ℕ → List TimeEntryRecord → Bool
violates_one_open e rows = ltb 1 (open_count e rows)
