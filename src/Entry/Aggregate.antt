-- ===== src/Entry/Aggregate.antt =====
-- time-entries/domain/time-entry.aggregate.ts and its value object `TimeWindow`. The aggregate is
-- the record, whose window and source its methods change, and the buffer of events.
use asima_backend.Base.{
  ℕ, Option, none, some, List, [], ◌∷◌, ◌++◌, Result, ok, err, Field, time_out, leb, if◌then◌else◌,
}
use asima_backend.Entry.Record.{
  TimeEntryRecord, EntryStatus, open_entry, confirmed, correction, EntryEvent, closed, corrected,
}

pub record TimeWindow : Type 0 where
  pub starts : ℕ
  pub ends : Option ℕ

-- `new TimeWindow`: an end must be strictly after the start. The field is the one of the 422.
unfoldable pub assert_window : ℕ → Option ℕ → Field → Result Field TimeWindow
assert_window starts none field = ok (record { starts = starts; ends = none })
assert_window starts (some t) field =
    if leb t starts then err field else ok (record { starts = starts; ends = some t })

-- `TimeEntry.deriveStatus`
abbrev status_of : Option ℕ → EntryStatus
status_of none = open_entry
status_of (some _) = confirmed

abbrev pub derive_status : TimeWindow → EntryStatus
derive_status w = status_of w.ends

pub record TimeEntry : Type 0 where
  pub p : TimeEntryRecord
  pub events : List EntryEvent

abbrev rebuilt : TimeEntryRecord → Result Field TimeWindow → Result Field TimeEntry
rebuilt p (ok _) = ok (record { p = p; events = [] })
rebuilt p (err f) = err f

unfoldable pub reconstitute : TimeEntryRecord → Result Field TimeEntry
unfolding assert_window
reconstitute p = rebuilt p (assert_window p.time_in p.time_out time_out)

abbrev moved : TimeEntry → TimeWindow → TimeEntryRecord
moved r w = record r.p { time_in = w.starts; time_out = w.ends; status = derive_status w }

abbrev closed_at : TimeEntry → Result Field TimeWindow → Result Field TimeEntry
closed_at r (ok w) =
    ok (record { p = moved r w; events = r.events ++ closed r.p.id r.p.employee_id ∷ [] })
closed_at r (err f) = err f

unfoldable pub close : TimeEntry → (now : ℕ) → Result Field TimeEntry
unfolding assert_window
close r now = closed_at r (assert_window r.p.time_in (some now) time_out)

-- The aggregate's own `applyCorrection`.
unfoldable pub move_to : TimeEntry → TimeWindow → TimeEntry
move_to r w = record {
  p = record (moved r w) { source = correction };
  events = r.events ++ corrected r.p.id r.p.employee_id ∷ [];
}
