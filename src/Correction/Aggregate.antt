-- ===== src/Correction/Aggregate.antt =====
-- time-correction-requests/domain/time-correction-request.aggregate.ts with its value object
-- `ProposedPunch`. The aggregate is the record and the buffer of events.
use asima_backend.Base.{
  ℕ, Bool, true, false, ◌&&◌, ◌||◌, not, Option, none, some, List, [], ◌∷◌, ◌++◌, Result, ok, err,
  Field, proposed_time_out, work_date, ltb, leb, ◌==◌, same_option, is_some, is_none, if◌then◌else◌,
}
use asima_backend.Time.{Date}
use asima_backend.Request.{
  Status, pending_l1, pending_l2, approved, rejected, cancelled, DecisionPath, chain, override,
  Actor, is_pending, is_override, Text, is_blank,
}
use asima_backend.Correction.Record.{
  TimeCorrectionRequestRecord, CorrectionEvent, approved_event, advanced_to_l2, rejected_event,
  cancelled_event,
}

-- time-correction-requests/domain/time-correction-request-errors.ts
pub data CorrectionError : Type 0 where
  correction_status not_current_approver rejection_note_required : CorrectionError
  not_allowed_to_cancel invalid_proposed_window : CorrectionError
  new_log_contract : Field → CorrectionError

pub record TimeCorrectionRequest : Type 0 where
  pub p : TimeCorrectionRequestRecord
  pub events : List CorrectionEvent

-- `assertProposedWindow`, which builds a `ProposedPunch`.
unfoldable pub assert_proposed_window : ℕ → Option ℕ → Result CorrectionError (Unit {0})
assert_proposed_window t_in none = ok tt
assert_proposed_window t_in (some t_out) =
    if leb t_out t_in then err invalid_proposed_window else ok tt

abbrev rebuilt :
    TimeCorrectionRequestRecord
    → Result CorrectionError (Unit {0})
    → Result CorrectionError TimeCorrectionRequest
rebuilt p (ok _) = ok (record { p = p; events = [] })
rebuilt p (err e) = err e

unfoldable pub reconstitute :
    TimeCorrectionRequestRecord → Result CorrectionError TimeCorrectionRequest
unfolding assert_proposed_window
reconstitute p = rebuilt p (assert_proposed_window p.proposed_time_in p.proposed_time_out)

step_approver : Status → TimeCorrectionRequestRecord → Option ℕ
step_approver pending_l1 p = some p.l1_approver_id
step_approver pending_l2 p = p.l2_approver_id
step_approver _ p = none

unfoldable pub current_step_approver_id : TimeCorrectionRequest → Option ℕ
unfolding step_approver
current_step_approver_id r = step_approver r.p.status r.p

placed : Status → TimeCorrectionRequestRecord → ℕ → Bool
placed pending_l1 p user_id = user_id == p.l1_approver_id
placed pending_l2 p user_id = same_option (some user_id) p.l2_approver_id
placed _ p user_id = false

unfoldable pub is_actionable_by : TimeCorrectionRequest → Actor → Bool
unfolding placed
is_actionable_by r a =
    if a.is_system_admin
    then true
    else if a.can_approve_any
    then true
    else if not a.can_approve
    then false
    else placed r.p.status r.p a.user_id

advances : Status → Option ℕ → Bool
advances pending_l1 l2 = is_some l2
advances _ l2 = false

unfoldable pub next_status_after_approval : TimeCorrectionRequest → Bool → Status
unfolding advances
next_status_after_approval r overrides =
    if overrides
    then approved
    else if advances r.p.status r.p.l2_approver_id
    then pending_l2
    else approved

unfoldable pub assert_approvable : TimeCorrectionRequest → Actor → Result CorrectionError (Unit {0})
unfolding is_actionable_by
assert_approvable r a =
    if not (is_pending r.p.status)
    then err correction_status
    else if not (is_actionable_by r a)
    then err not_current_approver
    else ok tt

approval_event : Status → TimeCorrectionRequestRecord → Actor → DecisionPath → CorrectionEvent
approval_event pending_l2 p a path = advanced_to_l2 p.id p.employee_id p.l2_approver_id
approval_event _ p a path = approved_event p.id p.employee_id a.user_id path

abbrev pub decision_path_of : Actor → DecisionPath
decision_path_of a = if is_override a then override else chain

unfoldable pub apply_approval : (now : ℕ) → TimeCorrectionRequest → Actor → TimeCorrectionRequest
unfolding next_status_after_approval approval_event
apply_approval now r a =
    let next = next_status_after_approval r (is_override a) in
    record {
      p = record r.p {
        status = next;
        decided_at = some now;
        decided_by = some a.user_id;
        decision_path = some (decision_path_of a);
      };
      events = r.events ++ approval_event next r.p a (decision_path_of a) ∷ [];
    }

unfoldable pub reject :
    (now : ℕ) → TimeCorrectionRequest → Actor → Text → Result CorrectionError TimeCorrectionRequest
unfolding is_actionable_by
reject now r a note =
    if is_blank note
    then err rejection_note_required
    else if not (is_pending r.p.status)
    then err correction_status
    else if not (is_actionable_by r a)
    then err not_current_approver
    else ok (record {
      p = record r.p {
        status = rejected;
        decided_at = some now;
        decided_by = some a.user_id;
        decision_note = some note;
        decision_path = some (decision_path_of a);
      };
      events = r.events ++ rejected_event r.p.id r.p.employee_id a.user_id ∷ [];
    })

unfoldable pub cancel :
    (now : ℕ) → TimeCorrectionRequest → Actor → Result CorrectionError TimeCorrectionRequest
cancel now r a =
    if not (is_pending r.p.status)
    then err correction_status
    else if not (a.user_id == r.p.employee_id) && not (a.is_system_admin || a.can_delete)
    then err not_allowed_to_cancel
    else ok (record {
      p = record r.p { status = cancelled; cancelled_at = some now; cancelled_by = some a.user_id };
      events = r.events ++ cancelled_event r.p.id r.p.employee_id a.user_id ∷ [];
    })

-- `assertNewLogContract`: a targeted correction has the looser contract.
unfoldable pub assert_new_log_contract :
    (target_entry_id proposed_time_out : Option ℕ) (work_date today : Date)
    → Result CorrectionError (Unit {0})
assert_new_log_contract target t_out date today =
    if is_some target
    then ok tt
    else if is_none t_out
    then err (new_log_contract proposed_time_out)
    else if ltb today date
    then err (new_log_contract work_date)
    else ok tt
