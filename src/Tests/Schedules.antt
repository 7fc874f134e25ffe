-- ===== src/Tests/Schedules.antt =====
-- Schedule changes: runs of the policy and of the service, and the theorems at concrete calls.
use asima_backend.Base.{◌≡◌, refl, [], ◌∷◌, none, some, arith}
use asima_backend.Request.{Status, pending_l1, approved}
use asima_backend.Leave.{vacation, system_cancel}
use asima_backend.Correction as Corrections
use asima_backend.Schedule.Cascade.{
  modify, remove, ScheduleChangeIntent, AffectedRequest, leave, time_correction, future, cancel,
  evaluate_leave, evaluate_correction, governed_dates, temporal_class, classify, touches_leave,
  touches_correction,
}
use asima_backend.Schedule.CascadeLaws.{
  IsDecided, evaluate_leave-IsDecided, evaluate_correction-IsDecided,
}
use asima_backend.Schedule.Cancelling.{Pairwise, Step, system_cancel-Pairwise}
use asima_backend.Tests.Data.{monday, workday, request, correction_request, office}

-- The request's second day, 700011, is a Wednesday.
abbrev no_wednesdays : ScheduleChangeIntent
no_wednesdays = record {
  employee_id = 7;
  day_of_week = 3;
  effective_from = 700004;
  mode = remove;
  expected_in = none;
  expected_out = none;
  break_minutes = none;
  break_start = none;
}

abbrev late_mondays : ScheduleChangeIntent
late_mondays = record no_wednesdays {
  day_of_week = 1;
  mode = modify;
  expected_in = some (record { hh = 10; mm = 0; ss = none });
  expected_out = some (record { hh = 19; mm = 0; ss = none });
  break_minutes = some 0;
}

abbrev touched : Status → AffectedRequest
touched s = record {
  kind = leave;
  id = 20;
  employee_id = 7;
  status = s;
  dates = 700010 ∷ 700011 ∷ [];
  trigger_dates = 700011 ∷ [];
  temporal = future;
  decision = cancel;
  leave_type = some vacation;
  working_days = some 20;
}

approved_touched :
    evaluate_leave (request approved) (some (workday 3 3)) no_wednesdays monday
    ≡ some (touched approved)
unfolding evaluate_leave governed_dates temporal_class classify touches_leave
approved_touched = refl

evaluate_leave-IsDecided_example : IsDecided (touched approved) 700010 monday
evaluate_leave-IsDecided_example =
    evaluate_leave-IsDecided (request approved) (some (workday 3 3)) no_wednesdays monday
      (touched approved) (omega arith) approved_touched

abbrev next_wednesday : AffectedRequest
next_wednesday = record {
  kind = time_correction;
  id = 40;
  employee_id = 7;
  status = pending_l1;
  dates = 700004 ∷ [];
  trigger_dates = 700004 ∷ [];
  temporal = future;
  decision = cancel;
  leave_type = none;
  working_days = none;
}

correction_touched :
    evaluate_correction
      (record correction_request { work_date = 700004; status = pending_l1 })
      (some (workday 3 3))
      no_wednesdays
      monday
    ≡ some next_wednesday
unfolding evaluate_correction governed_dates temporal_class classify touches_correction
correction_touched = refl

evaluate_correction-IsDecided_example : IsDecided next_wednesday 700004 monday
evaluate_correction-IsDecided_example =
    evaluate_correction-IsDecided
      (record correction_request { work_date = 700004; status = pending_l1 }) (some (workday 3 3))
      no_wednesdays monday next_wednesday (omega arith) correction_touched

system_cancel-Pairwise_example :
    Pairwise
      (Step (20 ∷ []) 50000000 9 (110 ∷ []))
      office.leaves
      (system_cancel 50000000 (20 ∷ []) 9 (110 ∷ []) office.leaves)
system_cancel-Pairwise_example =
    system_cancel-Pairwise 50000000 (20 ∷ []) 9 (110 ∷ []) office.leaves
