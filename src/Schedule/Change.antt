-- ===== src/Schedule/Change.antt =====
-- work-schedules/schedule-change.service.ts, over the shared state.
use asima_backend.Base.{
  ℕ, ◌+◌, Bool, true, false, not, ◌&&◌, ◌||◌, ◌==◌, List, [], ◌∷◌, ◌++◌, map, Option, none, some,
  Result, ok, err, Field, unprocessable, conflict_plain, forbidden_plain, not_found, internal,
  unique_violation, effective_from, expected_in, ◌>>=◌, ◌>>◌, pure, throw, throw_if, gets, modify,
  lift_with, transaction, any, every, length, sum_where, update_first, ltb, is_none, or_else,
  if◌then◌else◌,
}
use asima_backend.Time.{Date, TimeOfDay, day_before}
use asima_backend.Request.{Status, pending_l1, pending_l2, approved, rejected, cancelled, Text}
use asima_backend.Access.{User, has_permission}
use asima_backend.Db.{Db, Use, Instant}
use asima_backend.Leave as Leaves
use asima_backend.Correction as Corrections
use asima_backend.Schedule.Record.{WorkScheduleRecord}
use asima_backend.Schedule.Aggregate.{assert_schedule}
use asima_backend.Schedule.Repository.{find_active_for_employee_day}
use asima_backend.Schedule.Cascade.{
  ScheduleChangeMode, remove, ScheduleChangeIntent, VersioningAction, create, end_and_create,
  replace, end_only, delete_only, noop, AffectedKind, leave, time_correction, cancel, keep,
  AffectedRequest, plan_versioning, evaluate_leave, evaluate_correction,
}

-- The partial unique index `IDX_work_schedules_one_active_per_employee_day`.
abbrev pub is_active_of : ℕ → ℕ → WorkScheduleRecord → Bool
is_active_of e day r =
    r.employee_id == e && (r.day_of_week == day && (is_none r.effective_to && is_none r.deleted_at))

abbrev pub active_count : ℕ → ℕ → List WorkScheduleRecord → ℕ
active_count e day = sum_where (is_active_of e day) (λ _. 1)

abbrev pub is_schedule : ℕ → WorkScheduleRecord → Bool
is_schedule id r = r.id == id && is_none r.deleted_at

pub record PreviewedCancel : Type 0 where
  pub kind : AffectedKind
  pub id : ℕ
  pub status : Status

pub record ScheduleChangeImpact : Type 0 where
  pub versioning : VersioningAction
  pub live : Option WorkScheduleRecord  -- `live_row_id` is its id
  pub affected_leaves : List AffectedRequest
  pub affected_corrections : List AffectedRequest
  pub freed_leave_days : ℕ

check_window :
    Option TimeOfDay → Option TimeOfDay → Option ℕ → Option TimeOfDay → Result Field (Unit {0})
check_window (some t_in) (some t_out) (some minutes) start =
    assert_schedule t_in t_out minutes start
check_window _ _ _ start = err expected_in

abbrev check_mode : ScheduleChangeIntent → User → ScheduleChangeMode → Use (Unit {0})
unfolding check_window
check_mode intent caller ScheduleChangeMode.modify =
    lift_with unprocessable
      (check_window intent.expected_in intent.expected_out intent.break_minutes intent.break_start)
check_mode intent caller remove =
    throw_if (not (caller.system_admin || has_permission caller "SCHEDULE:Delete")) forbidden_plain

unfoldable pub validate : (today : Date) → ScheduleChangeIntent → User → Use (Unit {0})
unfolding check_window
validate today intent caller = do
  throw_if (ltb intent.effective_from today) (unprocessable effective_from)
  check_mode intent caller intent.mode

abbrev keep_cancelled : Option AffectedRequest → List AffectedRequest → List AffectedRequest
keep_cancelled none rest = rest
keep_cancelled (some a) rest =
    let decision = a.decision in elim decision [ cancel ↦ a ∷ rest | keep ↦ rest ]

unfoldable pub cancelled_leaves :
    WorkScheduleRecord
    → ScheduleChangeIntent
    → Date
    → List Leaves.LeaveRequestRecord
    → List AffectedRequest
cancelled_leaves live intent today [] = []
cancelled_leaves live intent today (r ∷ rows) =
    keep_cancelled (evaluate_leave r (some live) intent today)
      (cancelled_leaves live intent today rows)

unfoldable pub cancelled_corrections :
    WorkScheduleRecord
    → ScheduleChangeIntent
    → Date
    → List Corrections.TimeCorrectionRequestRecord
    → List AffectedRequest
cancelled_corrections live intent today [] = []
cancelled_corrections live intent today (r ∷ rows) =
    keep_cancelled (evaluate_correction r (some live) intent today)
      (cancelled_corrections live intent today rows)

-- In tenths of a day.
freed_days : List AffectedRequest → ℕ
freed_days = sum_where (λ _. true) (λ a. or_else a.working_days 0)

impact_of : Option WorkScheduleRecord → ScheduleChangeIntent → Date → Db → ScheduleChangeImpact
unfolding freed_days
impact_of none intent today db = record {
  versioning = plan_versioning none intent;
  live = none;
  affected_leaves = [];
  affected_corrections = [];
  freed_leave_days = 0;
}
impact_of (some live) intent today db =
    let leaves =
      cancelled_leaves live intent today
        (Leaves.find_active_candidates intent.employee_id intent.effective_from db.leaves) in
    record {
      versioning = plan_versioning (some live) intent;
      live = some live;
      affected_leaves = leaves;
      affected_corrections = cancelled_corrections live intent today (
          Corrections.find_active_candidates intent.employee_id intent.effective_from
            db.corrections);
      freed_leave_days = freed_days leaves;
    }

abbrev pub is_noop : VersioningAction → Bool
is_noop noop = true
is_noop _ = false

unfoldable pub compute_impact : ScheduleChangeIntent → Date → Use ScheduleChangeImpact
unfolding impact_of freed_days
compute_impact intent today = do
  live ←
      gets (λ db. find_active_for_employee_day intent.employee_id intent.day_of_week db.schedules)
  throw_if (is_noop (plan_versioning live intent)) not_found
  gets (impact_of live intent today)

unfoldable pub preview : Instant → ScheduleChangeIntent → User → Use ScheduleChangeImpact
preview i intent caller = validate i.today intent caller >> compute_impact intent i.today

abbrev pub same_kind : AffectedKind → AffectedKind → Bool
same_kind leave leave = true
same_kind time_correction time_correction = true
same_kind _ _ = false

abbrev pub same_status : Status → Status → Bool
same_status pending_l1 pending_l1 = true
same_status pending_l2 pending_l2 = true
same_status approved approved = true
same_status rejected rejected = true
same_status cancelled cancelled = true
same_status _ _ = false

-- The key `<kind>:<id>:<status>` is the triple; a `Set` of keys is a list without repetitions.
abbrev pub same_key : PreviewedCancel → PreviewedCancel → Bool
same_key a b = same_kind a.kind b.kind && (a.id == b.id && same_status a.status b.status)

abbrev pub key_of : AffectedRequest → PreviewedCancel
key_of a = record { kind = a.kind; id = a.id; status = a.status }

has_key : List PreviewedCancel → PreviewedCancel → Bool
has_key keys k = any (λ x. same_key x k) keys

key_set : List PreviewedCancel → List PreviewedCancel
unfolding has_key
key_set [] = []
key_set (k ∷ keys) = let rest = key_set keys in if has_key rest k then rest else k ∷ rest

unfoldable pub no_drift : List PreviewedCancel → List PreviewedCancel → Bool
unfolding key_set has_key
no_drift now then_keys =
    length (key_set now) == length (key_set then_keys) && every (has_key then_keys) now

abbrev pub new_schedule :
    ScheduleChangeIntent → (t_in t_out : TimeOfDay) → ℕ → User → (id : ℕ) → WorkScheduleRecord
new_schedule intent t_in t_out minutes caller id = record {
  id = id;
  employee_id = intent.employee_id;
  day_of_week = intent.day_of_week;
  expected_in = t_in;
  expected_out = t_out;
  break_minutes = minutes;
  break_start = intent.break_start;
  effective_from = intent.effective_from;
  effective_to = none;
  created_by = some caller.id;
  updated_by = some caller.id;
  deleted_by = none;
  deleted_at = none;
}

-- `schedules.create` with the columns that a validated `modify` carries; a missing one is NULL in
-- a column that forbids it.
insert_schedule :
    ScheduleChangeIntent
    → Option TimeOfDay
    → Option TimeOfDay
    → Option ℕ
    → User
    → Use (Option WorkScheduleRecord)
insert_schedule intent (some t_in) (some t_out) (some minutes) caller db =
    let row = new_schedule intent t_in t_out minutes caller db.next_id in
    let rows = db.schedules ++ row ∷ [] in
    if ltb 1 (active_count intent.employee_id intent.day_of_week rows)
    then (err unique_violation, db)
    else (ok (some row), record db { next_id = db.next_id + 1; schedules = rows })
insert_schedule intent _ _ _ caller db = (err internal, db)

abbrev new_row : ScheduleChangeIntent → User → Use (Option WorkScheduleRecord)
unfolding insert_schedule
new_row intent caller =
    insert_schedule intent intent.expected_in intent.expected_out intent.break_minutes caller

abbrev pub ended : Date → User → WorkScheduleRecord → WorkScheduleRecord
ended x caller r = record r { effective_to = some (day_before x); updated_by = some caller.id }

abbrev pub deleted : ℕ → User → WorkScheduleRecord → WorkScheduleRecord
deleted now caller r = record r { deleted_by = some caller.id; deleted_at = some now }

abbrev write_live :
    Option WorkScheduleRecord → (WorkScheduleRecord → WorkScheduleRecord) → Use (Unit {0})
write_live none patch = throw internal
write_live (some live) patch =
    modify (λ db. record db { schedules = update_first (is_schedule live.id) patch db.schedules })

unfoldable pub apply_versioning :
    ℕ
    → VersioningAction
    → ScheduleChangeIntent
    → Option WorkScheduleRecord
    → User
    → Use (Option WorkScheduleRecord)
unfolding insert_schedule
apply_versioning now create intent live caller = new_row intent caller
apply_versioning now end_and_create intent live caller = do
  write_live live (ended intent.effective_from caller)
  new_row intent caller
apply_versioning now replace intent live caller = do
  write_live live (deleted now caller)
  new_row intent caller
apply_versioning now end_only intent live caller = do
  write_live live (ended intent.effective_from caller)
  pure none
apply_versioning now delete_only intent live caller = do
  write_live live (deleted now caller)
  pure none
apply_versioning now noop intent live caller = pure none

abbrev pub ids_of : List AffectedRequest → List ℕ
ids_of = map (λ a. a.id)

-- The note is the text of `scheduleChangeCancelNote`.
unfoldable pub apply_change :
    Instant
    → (note : Text) → ScheduleChangeIntent
    → User
    → List PreviewedCancel
    → Use (ScheduleChangeImpact × Option WorkScheduleRecord)
apply_change i note intent caller previewed = do
  validate i.today intent caller
  transaction (do
    impact ← compute_impact intent i.today
    throw_if
        (not (
          no_drift (map key_of impact.affected_leaves ++ map key_of impact.affected_corrections)
            previewed))
        conflict_plain
    created_row ← apply_versioning i.now impact.versioning intent impact.live caller
    modify (λ db. record db {
      leaves = Leaves.system_cancel i.now (ids_of impact.affected_leaves) caller.id note db.leaves;
    })
    modify (λ db. record db {
      corrections =
          Corrections.system_cancel i.now (ids_of impact.affected_corrections) caller.id note
            db.corrections;
    })
    pure (impact, created_row))
