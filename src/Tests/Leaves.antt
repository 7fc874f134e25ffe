-- ===== src/Tests/Leaves.antt =====
-- Leave requests: runs of the use-cases, and the theorems at concrete calls.
use asima_backend.Base.{
  ℕ, ◌+◌, ◌-◌, ◌*◌, ◌≤◌, ◌≡◌, refl, inl, true, false, List, [], ◌∷◌, none, some, ok, arith, ◌↔◌,
  ◌==◌, length, any, find,
}
use asima_backend.Time.{weekday_of, to_seconds}
use asima_backend.Request.{Status, pending_l1, pending_l2, approved, rejected, chain}
use asima_backend.Allocation.{sum_for_update}
use asima_backend.Allocation.Service.{integer, balance_of}
use asima_backend.Allocation.Balance.{balance_of-exact}
use asima_backend.Schedule.{WorkScheduleRecord}
use asima_backend.Leave.{
  vacation, full, first_half, second_half, LeaveRequestRecord, LeaveRequest, SubmittableRange,
  sum_consumed, half_day_window, assert_submittable_range, count_against, is_workday,
  whole_day_only, assert_approvable, apply_approval,
}
use asima_backend.Leave.Lifecycle.{
  Command, approve_by, run_command, run, run-closed, run_two_signatures, approval_by,
}
use asima_backend.Leave.Progress.{successes, successes_bounded}
use asima_backend.Leave.HalfDay.{IsSchedulable, working_seconds, half_day_window_halves}
use asima_backend.Leave.Counting.{
  workdays_between, assert_submittable_range-full, assert_submittable_range-half,
}
use asima_backend.Leave.Service.{submit, Prepared}
use asima_backend.Leave.Reserve.{IsCovered}
use asima_backend.Leave.History.{
  Call, submits, approves, cancels, grants, serve_all, serve_all-IsCovered,
}
use asima_backend.Leave.Overlap.{requests_on, submit-requests_on}
use asima_backend.Tests.Data.{
  monday, morning, employee, lead, manager, workday, week, request, office, store, three_days,
  chain_actor,
}

office-IsCovered : IsCovered office
unfolding sum_consumed sum_for_update
office-IsCovered e t = ground arith

-- A submission of three days, an approval by the lead, a cancellation and a grant.
abbrev calls : List Call
calls =
    submits morning store three_days employee none
    ∷ approves morning 20 lead
    ∷ cancels morning 20 employee
    ∷ grants 7 vacation (integer 2) none manager
    ∷ []

serve_all-IsCovered_example :
    sum_consumed 7 vacation (serve_all office calls).leaves
    ≤ sum_for_update 7 vacation (serve_all office calls).allocations * 10
serve_all-IsCovered_example = serve_all-IsCovered office calls office-IsCovered 7 vacation

abbrev prepared : ℕ → Prepared
prepared tenths = record {
  range = record { working_days = tenths; start_time = none; end_time = none };
  l1_approver_id = 8;
  l2_approver_id = some 9;
  file = none;
}

balance_of-exact_example :
    let b = balance_of office 7 vacation in b.used + b.reserved + b.available ≡ b.allowance
balance_of-exact_example = balance_of-exact office 7 vacation office-IsCovered

abbrev at : Status → LeaveRequest
at s = record { p = request s; events = [] }

abbrev sign : ℕ → Command
sign u = approve_by 50000000 (chain_actor u)

run-closed_example : run (at rejected) (sign 8 ∷ sign 9 ∷ []) ≡ at rejected
run-closed_example = run-closed (at rejected) (sign 8 ∷ sign 9 ∷ []) (inl refl)

signed_twice : (run (at pending_l1) (sign 8 ∷ sign 9 ∷ [])).p.status ≡ approved
unfolding run run_command assert_approvable apply_approval
signed_twice = refl

successes_bounded_example : successes (at pending_l1) (sign 8 ∷ sign 8 ∷ sign 9 ∷ []) ≤ 3
successes_bounded_example = successes_bounded (at pending_l1) (sign 8 ∷ sign 8 ∷ sign 9 ∷ [])

run_two_signatures_example :
    (any (approval_by 8) (sign 8 ∷ sign 9 ∷ []) ≡ true)
    × (any (approval_by 9) (sign 8 ∷ sign 9 ∷ []) ≡ true)
run_two_signatures_example =
    run_two_signatures (at pending_l1) (sign 8 ∷ sign 9 ∷ []) 9 refl refl refl signed_twice

workday-IsSchedulable : IsSchedulable (workday 1 1)
workday-IsSchedulable = ground arith

half_day_window_halves_example :
    let row = workday 1 1 in
    let first = half_day_window row first_half in
    let second = half_day_window row second_half in
    let t_in = to_seconds row.expected_in in
    let t_out = to_seconds row.expected_out in
    let split = to_seconds first.1 in
    (to_seconds first.0 ≡ t_in)
    × (first.1 ≡ second.0)
    × (to_seconds second.1 ≡ t_out)
    × (working_seconds row t_in split + working_seconds row split t_out
        ≡ t_out - t_in - row.break_minutes * 60)
    × (working_seconds row split t_out ≤ working_seconds row t_in split)
    × (working_seconds row t_in split ≤ working_seconds row split t_out + 1)
half_day_window_halves_example = half_day_window_halves (workday 1 1) workday-IsSchedulable

-- A week and a half with one weekend.
eight_days : count_against week monday 700011 ≡ 8
unfolding count_against
eight_days = refl

abbrev three : SubmittableRange
three = record { working_days = 30; start_time = none; end_time = none }

assert_submittable_range-full_example :
    (assert_submittable_range monday week monday 700004 full none ≡ ok three) ↔ (
      (monday ≤ 700004)
      × (monday ≤ monday)
      × (is_workday week monday ≡ true)
      × (is_workday week 700004 ≡ true)
      × (three ≡ record {
        working_days = length (workdays_between week monday 700004) * 10;
        start_time = none;
        end_time = none;
      }))
assert_submittable_range-full_example =
    assert_submittable_range-full monday week monday 700004 none three

three_submittable : assert_submittable_range monday week monday 700004 full none ≡ ok three
unfolding assert_submittable_range
three_submittable = refl

abbrev half : SubmittableRange
half = record {
  working_days = 5;
  start_time = some (half_day_window (workday 1 1) first_half).0;
  end_time = some (half_day_window (workday 1 1) first_half).1;
}

half_submittable :
    assert_submittable_range monday week monday monday first_half (some vacation) ≡ ok half
unfolding assert_submittable_range half_day_window
half_submittable = refl

assert_submittable_range-half_example :
    (monday ≡ monday)
    × (monday ≤ monday)
    × (whole_day_only (some vacation) ≡ false)
    × (half.working_days ≡ 5)
    × ((row : WorkScheduleRecord) × (find (λ s. s.day_of_week == weekday_of monday) week ≡ some row)
        × (row.day_of_week ≡ weekday_of monday)
        × (half.start_time ≡ some (half_day_window row first_half).0)
        × (half.end_time ≡ some (half_day_window row first_half).1))
assert_submittable_range-half_example =
    assert_submittable_range-half monday week monday monday first_half (some vacation) half refl
      half_submittable

abbrev lead_row : LeaveRequestRecord
lead_row = record (request pending_l1) {
  status = pending_l2;
  decided_at = some 50000000;
  decided_by = some 8;
  decision_path = some chain;
  updated_by = some 8;
}

free_tuesday : requests_on 7 700003 office.leaves ≤ 1
free_tuesday = omega arith

submit-requests_on_example :
    requests_on 7 700003 (submit morning store three_days employee none office).1.leaves ≤ 1
submit-requests_on_example =
    submit-requests_on morning store three_days employee none office 7 700003 free_tuesday
