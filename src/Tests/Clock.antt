-- ===== src/Tests/Clock.antt =====
-- Time entries and corrections: runs of the use-cases, and the theorems at concrete calls.
use asima_backend.Base.{
  ◌≤◌, ◌+◌, ◌-◌, ◌/◌, ◌<◌, ◌≡◌, refl, ◌⊎◌, List, [], ◌∷◌, ◌++◌, none, some, ok, err, arith,
  too_many_requests, update_first,
}
use asima_backend.Request.{approved, override}
use asima_backend.Entry.{
  TimeEntryRecord, opened, closed, is_row, find_open_for_employee, find_latest_for_employee,
  last_event, correction,
}
use asima_backend.Entry.Service.{CorrectionInput, punch, cooldown_ms}
use asima_backend.Entry.Invariant.{IsTimesheet}
use asima_backend.Entry.Punch.{IsRested, punched_in, punched_out, punch_toggles}
use asima_backend.Entry.History.{Call, punches, corrects, deletes, serve_all, serve_all-IsTimesheet}
use asima_backend.Correction as Corrections
use asima_backend.Correction.{TimeCorrectionRequestRecord}
use asima_backend.Correction.Service.{SubmitCorrectionInput, submit, correction_of}
use asima_backend.Correction.Approval.{fresh}
use asima_backend.Correction.Uniqueness.{live_count, submit-live_count}
use asima_backend.Tests.Data.{employee, morning, manager, shift, correction_request, office}

office-IsTimesheet : IsTimesheet office
office-IsTimesheet = record {
  sound = (record { derived = refl; strict = omega arith }, tt);
  one_open = λ e. ground arith;
  distinct = (refl, tt);
  numbered = (omega arith, tt);
}

abbrev asked : CorrectionInput
asked = correction_of (fresh correction_request) manager

abbrev calls : List Call
calls = punches morning 7 ∷ corrects asked ∷ deletes 60000000 30 (some 9) ∷ punches morning 7 ∷ []

serve_all-IsTimesheet_example : IsTimesheet (serve_all office calls)
serve_all-IsTimesheet_example = serve_all-IsTimesheet office calls office-IsTimesheet

punch_toggles_example :
    ((l : TimeEntryRecord) × (find_latest_for_employee 7 office.entries ≡ some l)
      × (50000000 < last_event l + cooldown_ms)
      × (punch morning 7 office ≡ (
        err (too_many_requests ((last_event l + cooldown_ms - 50000000 + 999) / 1000)),
        office,
      )))
    ⊎ (IsRested 50000000 7 office
        × (find_open_for_employee 7 office.entries ≡ none)
        × (punch morning 7 office ≡ (
          ok (punched_in morning 7 100),
          record office {
            next_id = 101;
            entries = office.entries ++ punched_in morning 7 100 ∷ [];
            entry_events = office.entry_events ++ opened 100 7 700002 ∷ [];
          },
        )))
    ⊎ ((row : TimeEntryRecord) × IsRested 50000000 7 office
        × (find_open_for_employee 7 office.entries ≡ some row)
        × (row.time_in < 50000000)
        × (punch morning 7 office ≡ (
          ok (punched_out 50000000 7 row),
          record office {
            entries = update_first (is_row row.id) (punched_out 50000000 7) office.entries;
            entry_events = office.entry_events ++ closed row.id 7 ∷ [];
          },
        )))
punch_toggles_example = punch_toggles morning 7 office office-IsTimesheet

abbrev corrected_shift : TimeEntryRecord
corrected_shift = record shift {
  time_in = 9000000;
  time_out = some 21000000;
  source = correction;
  updated_by = some 9;
}

abbrev granted_request : TimeCorrectionRequestRecord
granted_request = record correction_request {
  status = approved;
  decided_at = some 50000000;
  decided_by = some 9;
  decision_path = some override;
  updated_by = some 9;
}

abbrev new_log : SubmitCorrectionInput
new_log = record {
  employee_id = 7;
  target_entry_id = none;
  work_date = 699998;
  proposed_time_in = 1000000;
  proposed_time_out = some 2000000;
  reason = 97 ∷ [];
}

one_live : live_count 30 office.corrections ≤ 1
one_live = omega arith

submit-live_count_example :
    live_count 30
      (submit morning (record new_log { target_entry_id = some 30 }) employee office).1.corrections
    ≤ 1
submit-live_count_example =
    submit-live_count morning (record new_log { target_entry_id = some 30 }) employee office 30
      one_live
