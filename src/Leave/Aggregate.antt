-- ===== src/Leave/Aggregate.antt =====
-- leave-requests/domain/leave-request.aggregate.ts and the value objects that it builds. The
-- aggregate is the record whose lifecycle columns its methods change, and the buffer of events.
use asima_backend.Base.{
  ℕ, ◌%◌, Bool, true, false, ◌&&◌, ◌||◌, not, Option, none, some, List, [], ◌∷◌, ◌++◌, Result, ok,
  err, ltb, ◌==◌, same_option, is_some, if◌then◌else◌,
}
use asima_backend.Time.{Date, TimeOfDay, time_lt}
use asima_backend.Request.{
  Status, pending_l1, pending_l2, approved, rejected, cancelled, DecisionPath, chain, override,
  Actor, is_pending, is_active_status, is_override, Text, is_blank,
}
use asima_backend.Leave.Record.{
  LeaveType, DayPortion, full, attachment_required_leave_types, LeaveRequestRecord, LeaveEvent,
  approved_event, advanced_to_l2, rejected_event, cancelled_event,
}

-- leave-requests/domain/leave-request-errors.ts; `invalid_value` is the plain `Error` that a value
-- object throws.
pub data LeaveError : Type 0 where
  leave_status not_current_approver rejection_note_required not_allowed_to_cancel : LeaveError
  attachment_contract invalid_value : LeaveError

pub record LeaveRequest : Type 0 where
  pub p : LeaveRequestRecord
  pub events : List LeaveEvent

-- `new DateRange(start, end)`: a `Date` of the model is well-formed.
abbrev pub date_range : Date → Date → Bool
date_range start end = not (ltb end start)

-- `new LeaveDuration(days)`: tenths of a day are never negative; a multiple of half a day.
abbrev pub leave_duration : ℕ → Bool
leave_duration tenths = tenths % 5 == 0

-- `new HalfDayWindow(portion, start_time, end_time)`.
abbrev pub half_day_window_ok : DayPortion → Option TimeOfDay → Option TimeOfDay → Bool
half_day_window_ok full none none = true
half_day_window_ok full _ _ = false
half_day_window_ok _ (some s) (some e) = time_lt s e
half_day_window_ok _ _ _ = false

unfoldable pub reconstitute : LeaveRequestRecord → Result LeaveError LeaveRequest
reconstitute p =
    if date_range p.start_date p.end_date
      && (leave_duration p.working_days && half_day_window_ok p.day_portion p.start_time p.end_time)
    then ok (record { p = p; events = [] })
    else err invalid_value

step_approver : Status → LeaveRequestRecord → Option ℕ
step_approver pending_l1 p = some p.l1_approver_id
step_approver pending_l2 p = p.l2_approver_id
step_approver _ p = none

-- `currentStepApproverId`
unfoldable pub current_step_approver_id : LeaveRequest → Option ℕ
unfolding step_approver
current_step_approver_id r = step_approver r.p.status r.p

placed : Status → LeaveRequestRecord → ℕ → Bool
placed pending_l1 p user_id = user_id == p.l1_approver_id
placed pending_l2 p user_id = same_option (some user_id) p.l2_approver_id
placed _ p user_id = false

unfoldable pub is_actionable_by : LeaveRequest → Actor → Bool
unfolding placed
is_actionable_by r a =
    if a.is_system_admin
    then true
    else if a.can_approve_any
    then true
    else if not a.can_approve
    then false
    else placed r.p.status r.p a.user_id

advances : Status → Option ℕ → Bool
advances pending_l1 l2 = is_some l2
advances _ l2 = false

next_status_after_approval : LeaveRequest → Bool → Status
unfolding advances
next_status_after_approval r overrides =
    if overrides
    then approved
    else if advances r.p.status r.p.l2_approver_id
    then pending_l2
    else approved

-- `assertPending`, then `assertCurrentApprover`.
unfoldable pub assert_approvable : LeaveRequest → Actor → Result LeaveError (Unit {0})
unfolding is_actionable_by
assert_approvable r a =
    if not (is_pending r.p.status)
    then err leave_status
    else if not (is_actionable_by r a)
    then err not_current_approver
    else ok tt

approval_event : Status → LeaveRequestRecord → Actor → DecisionPath → LeaveEvent
approval_event pending_l2 p a path = advanced_to_l2 p.id p.employee_id p.l2_approver_id
approval_event _ p a path = approved_event p.id p.employee_id a.user_id path

abbrev pub decision_path_of : Actor → DecisionPath
decision_path_of a = if is_override a then override else chain

unfoldable pub apply_approval : (now : ℕ) → LeaveRequest → Actor → LeaveRequest
unfolding next_status_after_approval approval_event
apply_approval now r a =
    let next = next_status_after_approval r (is_override a) in
    record {
      p = record r.p {
        status = next;
        decided_at = some now;
        decided_by = some a.user_id;
        decision_path = some (decision_path_of a);
      };
      events = r.events ++ approval_event next r.p a (decision_path_of a) ∷ [];
    }

unfoldable pub reject : (now : ℕ) → LeaveRequest → Actor → Text → Result LeaveError LeaveRequest
unfolding assert_approvable
reject now r a note =
    if is_blank note
    then err rejection_note_required
    else if not (is_pending r.p.status)
    then err leave_status
    else if not (is_actionable_by r a)
    then err not_current_approver
    else ok (record {
      p = record r.p {
        status = rejected;
        decided_at = some now;
        decided_by = some a.user_id;
        decision_note = some note;
        decision_path = some (decision_path_of a);
      };
      events = r.events ++ rejected_event r.p.id r.p.employee_id a.user_id ∷ [];
    })

unfoldable pub cancel :
    (now : ℕ) (today : Date) → LeaveRequest → Actor → Result LeaveError LeaveRequest
cancel now today r a =
    if not (is_active_status r.p.status)
    then err leave_status
    else if ltb r.p.end_date today
    then err leave_status
    else if not (a.user_id == r.p.employee_id) && not (a.is_system_admin || a.can_delete)
    then err not_allowed_to_cancel
    else ok (record {
      p = record r.p { status = cancelled; cancelled_at = some now; cancelled_by = some a.user_id };
      events = r.events ++ cancelled_event r.p.id r.p.employee_id a.user_id ∷ [];
    })

-- `normalizePortion`
abbrev pub normalize_portion : Option DayPortion → DayPortion
normalize_portion none = full
normalize_portion (some portion) = portion

unfoldable pub assert_attachment_contract :
    LeaveType → (has_attachment : Bool) → Result LeaveError (Unit {0})
assert_attachment_contract t has_attachment =
    let requires = attachment_required_leave_types t in
    if requires && not has_attachment
    then err attachment_contract
    else if not requires && has_attachment
    then err attachment_contract
    else ok tt
