-- ===== src/Entry/Applied.antt =====
-- `applyCorrection` of time-entries/time-entries.service.ts, which the approval of a correction
-- calls.
use asima_backend.Base.{
  ℕ, ◌≡◌, refl, inl, inr, false, ◌&&◌, [], ◌∷◌, none, some, ok, err, Error, arith, is_none,
  Option-cases, Bool-cases, Result-cases, unprocessable, time_out, proposed_time_out, conflict,
  conflict_key, internal, not_found, work_date,
}
use asima_backend.Db.{Db}
use asima_backend.Entry.Record.{TimeEntryRecord, correction, corrected}
use asima_backend.Entry.Aggregate.{
  TimeWindow, assert_window, derive_status, TimeEntry, reconstitute, move_to,
}
use asima_backend.Entry.Repository.{find_by_id, find_open_for_employee}
use asima_backend.Entry.Service.{
  update_entry, try_create, CorrectionInput, logged_entry, apply_correction, has_entry_on_date,
  other_open,
}
use asima_backend.Entry.Invariant.{IsTimesheet, update_entry-IsTimesheet, assert_window-EndsAfter}
use asima_backend.Entry.Writes.{try_create-IsTimesheet}

abbrev fresh_entry : TimeEntryRecord → TimeEntry
fresh_entry row = record { p = row; events = [] }

-- The target's row after the correction.
abbrev pub corrected_row : CorrectionInput → TimeWindow → TimeEntryRecord → TimeEntryRecord
corrected_row input w r = record r {
  work_date = input.work_date;
  time_in = w.starts;
  time_out = w.ends;
  source = correction;
  status = derive_status w;
  updated_by = input.decided_by;
}

-- The three ends of a call: a refusal, a new row, an update of the target.
pub data Applied (input : CorrectionInput) (db : Db) : Type 0 where
  refused : (e : Error) → apply_correction input db ≡ (err e, db) → Applied input db
  logged :
      (w : TimeWindow)
      → assert_window input.proposed_time_in input.proposed_time_out proposed_time_out ≡ ok w
      → input.target_entry_id ≡ none
      → has_entry_on_date input.employee_id input.work_date db ≡ false
      → apply_correction input db ≡ try_create (conflict conflict_key) (logged_entry input w) db
      → Applied input db
  moved :
      (w : TimeWindow) (id : ℕ) (row : TimeEntryRecord)
      → assert_window input.proposed_time_in input.proposed_time_out proposed_time_out ≡ ok w
      → input.target_entry_id ≡ some id
      → find_by_id id db.entries ≡ some row
      → apply_correction input db
        ≡ update_entry id (corrected_row input w) (corrected row.id row.employee_id ∷ []) db
      → Applied input db

module _ (input : CorrectionInput) (db : Db) where
  applied_log :
      (w : TimeWindow)
      → assert_window input.proposed_time_in input.proposed_time_out proposed_time_out ≡ ok w
      → input.target_entry_id ≡ none
      → Applied input db
  unfolding apply_correction
  applied_log w good untargeted =
      elim (Bool-cases (has_entry_on_date input.employee_id input.work_date db)) [
        | inl there ↦ Applied.refused (conflict work_date) (ground arith)
        | inr absent ↦
            elim (Bool-cases (
              is_none w.ends
              && other_open (find_open_for_employee input.employee_id db.entries) none)) [
                | inl taken ↦ Applied.refused (conflict conflict_key) (ground arith)
                | inr free ↦ Applied.logged w good untargeted absent (ground arith)
              ]
      ]

  applied_target :
      (w : TimeWindow) (id : ℕ)
      → assert_window input.proposed_time_in input.proposed_time_out proposed_time_out ≡ ok w
      → input.target_entry_id ≡ some id
      → Applied input db
  unfolding apply_correction reconstitute move_to
  applied_target w id good targeted = elim (Option-cases (find_by_id id db.entries)) [
    | inl missing ↦ Applied.refused not_found (ground arith)
    | inr (row, found) ↦
        elim (Bool-cases (
          is_none w.ends
          && other_open (find_open_for_employee input.employee_id db.entries) (some id))) [
            | inl taken ↦ Applied.refused (conflict conflict_key) (ground arith)
            | inr free ↦ elim (Result-cases (assert_window row.time_in row.time_out time_out)) [
              | inl (v, sound) ↦ Applied.moved w id row good targeted found (ground arith)
              | inr (e, bad) ↦ Applied.refused internal (ground arith)
            ]
          ]
  ]

  pub apply_correction_cases : Applied input db
  unfolding apply_correction
  apply_correction_cases =
      elim (Result-cases
        (assert_window input.proposed_time_in input.proposed_time_out proposed_time_out)) [
          | inr (e, bad) ↦ Applied.refused (unprocessable e) (ground arith)
          | inl (w, good) ↦ elim (Option-cases input.target_entry_id) [
            | inl untargeted ↦ applied_log w good untargeted
            | inr (id, targeted) ↦ applied_target w id good targeted
          ]
        ]

-- The entry `e` is in the table of `db` with the interval that the correction asked for.
pub record IsWritten (input : CorrectionInput) (e : TimeEntryRecord) (db : Db) : Type 0 where
  pub stored : find_by_id e.id db.entries ≡ some e
  pub same_date : e.work_date ≡ input.work_date
  pub same_in : e.time_in ≡ input.proposed_time_in
  pub same_out : e.time_out ≡ input.proposed_time_out
  pub by_correction : e.source ≡ correction
  pub by_decider : e.updated_by ≡ input.decided_by

pub apply_correction-IsTimesheet :
    (input : CorrectionInput) (db : Db) → IsTimesheet db → IsTimesheet (apply_correction input db).1
apply_correction-IsTimesheet input db h = elim (apply_correction_cases input db) [
  | refused x same ↦ rw same h
  | logged w good _ _ same ↦
      let (_, ends, strict) =
        assert_window-EndsAfter input.proposed_time_in input.proposed_time_out proposed_time_out w
          good in
      rw same (
        try_create-IsTimesheet (conflict conflict_key) (logged_entry input w) db (ground arith)
          strict h)
  | moved w id row good _ found same ↦
      let (starts, ends, strict) =
        assert_window-EndsAfter input.proposed_time_in input.proposed_time_out proposed_time_out w
          good in
      rw same (
        update_entry-IsTimesheet id (corrected_row input w) (corrected row.id row.employee_id ∷ [])
          db (λ x _. record { derived = ground arith; strict = rw (starts, ends) strict })
          (λ _. refl) (λ _. refl) h)
]
