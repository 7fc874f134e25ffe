-- ===== src/Correction/Frame.antt =====
-- How a write of time-entries/time-entries.service.ts meets the tables of the correction requests.
use asima_backend.Base.{
  ℕ, ◌≡◌, ◌⊎◌, inl, inr, List, [], ◌∷◌, ◌++◌, ok, err, Error, arith, update_first, Option-cases,
  Bool-cases, internal, unique_violation, conflict, conflict_key,
}
use asima_backend.Db.{Db, Use}
use asima_backend.Entry.{TimeEntryRecord, EntryEvent, corrected, violates_one_open, is_row}
use asima_backend.Entry as Entries
use asima_backend.Entry.Service.{
  CorrectionInput, apply_correction, try_create, create_entry, update_entry, NewEntry, new_entry,
  logged_entry, on_unique_violation,
}
use asima_backend.Entry.Applied.{refused, logged, moved, apply_correction_cases, corrected_row}

-- A write of the timesheet that fails changes nothing, and one that succeeds leaves the requests
-- and their events alone.
abbrev pub IsFramed : Use TimeEntryRecord → Db → Type 0
IsFramed m db =
    ((x : Error) × (m db ≡ (err x, db)))
    ⊎ ((r : TimeEntryRecord) × (db' : Db) × (m db ≡ (ok r, db'))
        × (db'.corrections ≡ db.corrections)
        × (db'.correction_events ≡ db.correction_events))

create_entry-IsFramed : (n : NewEntry) (db : Db) → IsFramed (create_entry n) db
unfolding create_entry
create_entry-IsFramed n db =
    elim (Bool-cases
      (violates_one_open n.employee_id (db.entries ++ new_entry n db.next_id ∷ []))) [
        | inl hit ↦ inl (unique_violation, ground arith)
        | inr fits ↦ inr (
          new_entry n db.next_id,
          (create_entry n db).1,
          ground arith,
          ground arith,
          ground arith,
        )
      ]

try_create-IsFramed : (e : Error) (n : NewEntry) (db : Db) → IsFramed (try_create e n) db
unfolding try_create
try_create-IsFramed e n db = elim (create_entry-IsFramed n db) [
  | inl (x, same) ↦ inl (on_unique_violation e x, ground arith)
  | inr (r, db', same, kept, published) ↦
      inr (r, (try_create e n db).1, ground arith, ground arith, ground arith)
]

update_entry-IsFramed :
    (id : ℕ) (patch : TimeEntryRecord → TimeEntryRecord) (events : List EntryEvent) (db : Db)
    → IsFramed (update_entry id patch events) db
unfolding update_entry
update_entry-IsFramed id patch events db = elim (Option-cases (Entries.find_by_id id db.entries)) [
  | inl missing ↦ inl (internal, ground arith)
  | inr (row, found) ↦
      elim (Bool-cases
        (violates_one_open row.employee_id (update_first (is_row id) patch db.entries))) [
          | inl hit ↦ inl (unique_violation, ground arith)
          | inr fits ↦ inr (
            patch row,
            (update_entry id patch events db).1,
            ground arith,
            ground arith,
            ground arith,
          )
        ]
]

pub apply_correction-IsFramed :
    (input : CorrectionInput) (db : Db) → IsFramed (apply_correction input) db
apply_correction-IsFramed input db = elim (apply_correction_cases input db) [
  | refused x same ↦ inl (x, same)
  | logged w _ _ _ same ↦
      rw same (try_create-IsFramed (conflict conflict_key) (logged_entry input w) db)
  | moved w id row _ _ _ same ↦
      rw same (
        update_entry-IsFramed id (corrected_row input w) (corrected row.id row.employee_id ∷ []) db)
]
