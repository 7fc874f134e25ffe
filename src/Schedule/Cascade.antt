-- ===== src/Schedule/Cascade.antt =====
-- work-schedules/domain/cascade-policy.ts and schedule-change.ts: which requests a schedule change
-- touches, and what becomes of them.
use asima_backend.Base.{
  ℕ, Bool, true, false, not, ◌&&◌, ◌||◌, ◌==◌, List, [], ◌∷◌, Option, none, some, filter, ltb, leb,
  is_empty, same_option, if◌then◌else◌,
}
use asima_backend.Time.{Date, TimeOfDay, same_time, weekday_of, dates_in_range}
use asima_backend.Request.{Status, is_pending}
use asima_backend.Leave.{LeaveType, DayPortion, full, LeaveRequestRecord}
use asima_backend.Correction.{TimeCorrectionRequestRecord}
use asima_backend.Schedule.Record.{WorkScheduleRecord}

pub data ScheduleChangeMode : Type 0 where
  modify remove : ScheduleChangeMode

pub record ScheduleChangeIntent : Type 0 where
  pub employee_id : ℕ
  pub day_of_week : ℕ
  pub effective_from : Date
  pub mode : ScheduleChangeMode
  pub expected_in : Option TimeOfDay
  pub expected_out : Option TimeOfDay
  pub break_minutes : Option ℕ
  pub break_start : Option TimeOfDay

pub data VersioningAction : Type 0 where
  create end_and_create replace end_only delete_only noop : VersioningAction

pub data AffectedKind : Type 0 where
  leave time_correction : AffectedKind

pub data TemporalClass : Type 0 where
  past present future : TemporalClass

pub data CascadeDecision : Type 0 where
  cancel keep : CascadeDecision

pub record AffectedRequest : Type 0 where
  pub kind : AffectedKind
  pub id : ℕ
  pub employee_id : ℕ
  pub status : Status
  pub dates : List Date
  pub trigger_dates : List Date
  pub temporal : TemporalClass
  pub decision : CascadeDecision
  pub leave_type : Option LeaveType
  pub working_days : Option ℕ

abbrev is_remove : ScheduleChangeMode → Bool
is_remove modify = false
is_remove remove = true

plan_removal : Option WorkScheduleRecord → Date → VersioningAction
plan_removal none x = VersioningAction.noop
plan_removal (some live) x =
    if leb x live.effective_from then VersioningAction.delete_only else VersioningAction.end_only

plan_modification : Option WorkScheduleRecord → Date → VersioningAction
plan_modification none x = VersioningAction.create
plan_modification (some live) x =
    if leb x live.effective_from then VersioningAction.replace else VersioningAction.end_and_create

unfoldable pub plan_versioning : Option WorkScheduleRecord → ScheduleChangeIntent → VersioningAction
unfolding plan_removal plan_modification
plan_versioning live intent =
    if is_remove intent.mode
    then plan_removal live intent.effective_from
    else plan_modification live intent.effective_from

-- `intent.x !== live.x`, where the intent may lack the value.
abbrev differs : Option TimeOfDay → TimeOfDay → Bool
differs none t = true
differs (some s) t = not (same_time s t)

abbrev same_start : Option TimeOfDay → Option TimeOfDay → Bool
same_start none none = true
same_start (some s) (some t) = same_time s t
same_start _ _ = false

unfoldable pub window_changed : WorkScheduleRecord → ScheduleChangeIntent → Bool
window_changed live intent =
    is_remove intent.mode
    || (differs intent.expected_in live.expected_in
        || differs intent.expected_out live.expected_out)

unfoldable pub break_changed : WorkScheduleRecord → ScheduleChangeIntent → Bool
break_changed live intent =
    is_remove intent.mode
    || (not (same_option intent.break_minutes (some live.break_minutes))
        || not (same_start intent.break_start live.break_start))

abbrev pub governs : ScheduleChangeIntent → Date → Bool
governs intent d = leb intent.effective_from d && weekday_of d == intent.day_of_week

unfoldable pub governed_dates : List Date → ScheduleChangeIntent → List Date
governed_dates dates intent = filter (governs intent) dates

abbrev pub min_of : Date → List Date → Date
min_of d [] = d
min_of d (e ∷ ds) = min_of (if ltb d e then d else e) ds

abbrev pub max_of : Date → List Date → Date
max_of d [] = d
max_of d (e ∷ ds) = max_of (if ltb e d then d else e) ds

-- The dates are `d ∷ ds`: `reduce` throws on an empty list.
unfoldable pub temporal_class : Date → List Date → (today : Date) → TemporalClass
temporal_class d ds today =
    if ltb (max_of d ds) today then past else if ltb today (min_of d ds) then future else present

-- The statuses are those of candidates: pending or approved.
unfoldable pub classify : TemporalClass → Status → CascadeDecision
classify past status = keep
classify present status = if is_pending status then cancel else keep
classify future status = cancel

abbrev is_full : DayPortion → Bool
is_full full = true
is_full _ = false

abbrev window_or_break_changed : Option WorkScheduleRecord → ScheduleChangeIntent → Bool
window_or_break_changed none intent = false
window_or_break_changed (some live) intent = window_changed live intent || break_changed live intent

-- The predicate of `evaluateLeave`, once a date is governed.
unfoldable pub touches_leave :
    LeaveRequestRecord → Option WorkScheduleRecord → ScheduleChangeIntent → Bool
touches_leave lv live intent =
    if is_remove intent.mode
    then true
    else if not (is_full lv.day_portion)
    then window_or_break_changed live intent
    else false

abbrev affected_leave : LeaveRequestRecord → List Date → List Date → TemporalClass → AffectedRequest
affected_leave lv dates triggers temporal = record {
  kind = leave;
  id = lv.id;
  employee_id = lv.employee_id;
  status = lv.status;
  dates = dates;
  trigger_dates = triggers;
  temporal = temporal;
  decision = classify temporal lv.status;
  leave_type = some lv.leave_type;
  working_days = some lv.working_days;
}

-- Without dates there is no governed one.
unfoldable pub evaluate_dates :
    LeaveRequestRecord
    → Option WorkScheduleRecord
    → ScheduleChangeIntent
    → Date
    → List Date
    → Option AffectedRequest
evaluate_dates lv live intent today [] = none
evaluate_dates lv live intent today (d ∷ ds) =
    let triggers = governed_dates (d ∷ ds) intent in
    if is_empty triggers
    then none
    else if not (touches_leave lv live intent)
    then none
    else some (affected_leave lv (d ∷ ds) triggers (temporal_class d ds today))

unfoldable pub evaluate_leave :
    LeaveRequestRecord
    → Option WorkScheduleRecord
    → ScheduleChangeIntent
    → (today : Date) → Option AffectedRequest
unfolding evaluate_dates
evaluate_leave lv live intent today =
    evaluate_dates lv live intent today (dates_in_range lv.start_date lv.end_date)

abbrev window_moved : Option WorkScheduleRecord → ScheduleChangeIntent → Bool
window_moved none intent = false
window_moved (some live) intent = window_changed live intent

unfoldable pub touches_correction : Option WorkScheduleRecord → ScheduleChangeIntent → Bool
touches_correction live intent = is_remove intent.mode || window_moved live intent

abbrev affected_correction :
    TimeCorrectionRequestRecord → List Date → TemporalClass → AffectedRequest
affected_correction tc triggers temporal = record {
  kind = time_correction;
  id = tc.id;
  employee_id = tc.employee_id;
  status = tc.status;
  dates = tc.work_date ∷ [];
  trigger_dates = triggers;
  temporal = temporal;
  decision = classify temporal tc.status;
  leave_type = none;
  working_days = none;
}

unfoldable pub evaluate_correction :
    TimeCorrectionRequestRecord
    → Option WorkScheduleRecord
    → ScheduleChangeIntent
    → (today : Date) → Option AffectedRequest
evaluate_correction tc live intent today =
    let triggers = governed_dates (tc.work_date ∷ []) intent in
    if is_empty triggers
    then none
    else if not (touches_correction live intent)
    then none
    else some (affected_correction tc triggers (temporal_class tc.work_date [] today))
