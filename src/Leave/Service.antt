-- ===== src/Leave/Service.antt =====
-- leave-requests/leave-requests.service.ts: the use-cases, over the shared state.
use asima_backend.Base.{
  ℕ, ◌+◌, ◌*◌, Bool, true, false, not, ◌||◌, ◌==◌, List, [], ◌∷◌, ◌++◌, Option, none, some, ok,
  Error, unprocessable, conflict, forbidden, forbidden_plain, not_found, internal, status, approver,
  decision_note, attachment, approval_chain, dates, balance, ◌>>=◌, ◌>>◌, pure, throw_if, gets,
  modify, or_throw, lift_with, transaction, on_error, ltb, is_some, is_none, is_empty, same_option,
  or_else, update_first, Change, merge, if◌then◌else◌, ◌&&◌,
}
use asima_backend.Time.{Date}
use asima_backend.Request.{pending_l1, is_pending, is_override, Actor, Text}
use asima_backend.Access.{User, has_permission}
use asima_backend.Db.{Db, Use, Instant, find_user}
use asima_backend.Chain as Chains
use asima_backend.Schedule as Schedules
use asima_backend.Allocation.{sum_for_update}
use asima_backend.Storage.{ObjectStore, PreparedAttachment}
use asima_backend.Storage.Service.{upload_for_owner, persist, cleanup}
use asima_backend.Leave.Record.{LeaveType, DayPortion, LeaveRequestRecord, LeaveEvent, submitted}
use asima_backend.Leave.Aggregate.{
  LeaveError, leave_status, not_current_approver, rejection_note_required, not_allowed_to_cancel,
  attachment_contract, invalid_value, LeaveRequest, reconstitute, current_step_approver_id,
  assert_approvable, apply_approval, reject, cancel, normalize_portion, assert_attachment_contract,
}
use asima_backend.Leave.DayCount.{SubmittableRange, assert_submittable_range}
use asima_backend.Leave.Repository.{find_by_id, find_overlapping, sum_consumed}

abbrev pub rethrow_leave_domain_error : LeaveError → Error
rethrow_leave_domain_error leave_status = conflict status
rethrow_leave_domain_error not_current_approver = forbidden approver
rethrow_leave_domain_error rejection_note_required = unprocessable decision_note
rethrow_leave_domain_error not_allowed_to_cancel = forbidden_plain
rethrow_leave_domain_error attachment_contract = unprocessable attachment
rethrow_leave_domain_error invalid_value = internal

abbrev pub to_leave_actor : User → Actor
to_leave_actor caller = record {
  user_id = caller.id;
  is_system_admin = caller.system_admin;
  can_approve = has_permission caller "LEAVE:Approve";
  can_approve_any = has_permission caller "LEAVE:ApproveAny";
  can_delete = has_permission caller "LEAVE:Delete";
}

pub record SubmitLeaveInput : Type 0 where
  pub employee_id : ℕ
  pub leave_type : LeaveType
  pub start_date : Date
  pub end_date : Date
  pub day_portion : Option DayPortion
  pub reason : Option Text

-- What `submit` has settled before it opens the transaction.
pub record Prepared : Type 0 where
  pub range : SubmittableRange
  pub l1_approver_id : ℕ
  pub l2_approver_id : Option ℕ
  pub file : Option PreparedAttachment

abbrev upload_file : ObjectStore → Option (List ℕ) → ℕ → ℕ → Use (Option PreparedAttachment)
upload_file w none owner actor = pure none
upload_file w (some buffer) owner actor =
    upload_for_owner w buffer owner actor >>= λ a. pure (some a)

-- The first part of `submit`: the checks in the order of the code, and the upload.
unfoldable pub prepare :
    Instant → ObjectStore → SubmitLeaveInput → User → Option (List ℕ) → Use Prepared
prepare i w input actor file = do
  lift_with rethrow_leave_domain_error (assert_attachment_contract input.leave_type (is_some file))
  rows ← gets (λ db. Schedules.find_active_for_employee input.employee_id db.schedules)
  range ←
      lift_with (λ e. e)
        (assert_submittable_range i.today rows input.start_date input.end_date
          (normalize_portion input.day_portion) (some input.leave_type))
  chain ← gets (λ db. Chains.get_active input.employee_id db.chains)
  l1 ← or_throw chain.l1_approver_id (unprocessable approval_chain)
  overlaps ←
      gets (λ db. find_overlapping input.employee_id input.start_date input.end_date db.leaves)
  throw_if (not (is_empty overlaps)) (unprocessable dates)
  prepared ← upload_file w file input.employee_id actor.id
  pure (record {
    range = range;
    l1_approver_id = l1;
    l2_approver_id = chain.l2_approver_id;
    file = prepared;
  })

-- The row that `repository.create` inserts.
abbrev pub new_request :
    Instant
    → SubmitLeaveInput
    → User
    → Prepared
    → (id : ℕ) → (attachment_id : Option ℕ) → LeaveRequestRecord
new_request i input actor p id attachment_id = record {
  id = id;
  employee_id = input.employee_id;
  leave_type = input.leave_type;
  start_date = input.start_date;
  end_date = input.end_date;
  working_days = p.range.working_days;
  day_portion = normalize_portion input.day_portion;
  start_time = p.range.start_time;
  end_time = p.range.end_time;
  reason = input.reason;
  status = pending_l1;
  submitted_at = i.now;
  decided_at = none;
  decided_by = none;
  decision_note = none;
  decision_path = none;
  cancelled_at = none;
  cancelled_by = none;
  l1_approver_id = p.l1_approver_id;
  l2_approver_id = p.l2_approver_id;
  attachment_id = attachment_id;
  created_by = some actor.id;
  updated_by = some actor.id;
  deleted_at = none;
}

persist_file : Option PreparedAttachment → Use (Option ℕ)
persist_file none = pure none
persist_file (some a) = persist a >>= λ id. pure (some id)

insert_request : Instant → SubmitLeaveInput → User → Prepared → Option ℕ → Use LeaveRequestRecord
insert_request i input actor p attachment_id db =
    let row = new_request i input actor p db.next_id attachment_id in
    (ok row, record db { next_id = db.next_id + 1; leaves = db.leaves ++ row ∷ [] })

-- The body of the transaction. An allowance counts whole days, the rest tenths of a day;
-- `available < working_days` is `allowance < consumed + working_days`.
reserve : Instant → SubmitLeaveInput → User → Prepared → Use LeaveRequestRecord
unfolding persist_file insert_request
reserve i input actor p = do
  allowance ← gets (λ db. sum_for_update input.employee_id input.leave_type db.allocations)
  consumed ← gets (λ db. sum_consumed input.employee_id input.leave_type db.leaves)
  throw_if (ltb (allowance * 10) (consumed + p.range.working_days)) (unprocessable balance)
  attachment_id ← persist_file p.file
  insert_request i input actor p attachment_id

clean_file : ObjectStore → Option PreparedAttachment → Use (Unit {0})
clean_file w none = pure tt
clean_file w (some a) = cleanup w a

-- The second part of `submit`: the transaction, the clean-up when it fails, and the event.
unfoldable pub commit :
    Instant → ObjectStore → SubmitLeaveInput → User → Prepared → Use LeaveRequestRecord
unfolding reserve clean_file persist_file insert_request
commit i w input actor p = do
  created ← on_error (transaction (reserve i input actor p)) (clean_file w p.file)
  modify (λ db. record db {
    leave_events =
        db.leave_events ++ submitted created.id created.employee_id created.l1_approver_id ∷ [];
  })
  pure created

unfoldable pub submit :
    Instant → ObjectStore → SubmitLeaveInput → User → Option (List ℕ) → Use LeaveRequestRecord
submit i w input actor file = prepare i w input actor file >>= λ p. commit i w input actor p

-- `findAggregateById`, with the 404.
unfoldable pub load : ℕ → Use LeaveRequest
load id = do
  row ← or_throw (← gets (λ db. find_by_id id db.leaves)) not_found
  lift_with rethrow_leave_domain_error (reconstitute row)

-- `repository.update`, which saves and reads back, and `publisher.publish(pullEvents())`.
unfoldable pub save :
    ℕ → (LeaveRequestRecord → LeaveRequestRecord) → List LeaveEvent → Use LeaveRequestRecord
save id patch events = do
  or_throw (← gets (λ db. find_by_id id db.leaves)) internal >>= λ _. pure tt
  modify (λ db. record db {
    leaves = update_first (λ r. r.id == id && is_none r.deleted_at) patch db.leaves;
  })
  saved ← or_throw (← gets (λ db. find_by_id id db.leaves)) internal
  modify (λ db. record db { leave_events = db.leave_events ++ events })
  pure saved

abbrev pub cancel_patch : LeaveRequest → User → LeaveRequestRecord → LeaveRequestRecord
cancel_patch done caller r = record r {
  status = done.p.status;
  cancelled_at = done.p.cancelled_at;
  cancelled_by = done.p.cancelled_by;
  updated_by = some caller.id;
}

abbrev pub approval_patch : LeaveRequest → User → LeaveRequestRecord → LeaveRequestRecord
approval_patch done caller r = record r {
  status = done.p.status;
  decided_at = done.p.decided_at;
  decided_by = done.p.decided_by;
  decision_path = done.p.decision_path;
  updated_by = some caller.id;
}

abbrev pub rejection_patch : LeaveRequest → User → LeaveRequestRecord → LeaveRequestRecord
rejection_patch done caller r = record r {
  status = done.p.status;
  decided_at = done.p.decided_at;
  decided_by = done.p.decided_by;
  decision_note = done.p.decision_note;
  decision_path = done.p.decision_path;
  updated_by = some caller.id;
}

unfoldable pub cancel_request : Instant → ℕ → User → Use LeaveRequestRecord
cancel_request i id caller = do
  aggregate ← load id
  done ←
      lift_with rethrow_leave_domain_error (cancel i.now i.today aggregate (to_leave_actor caller))
  save id (cancel_patch done caller) done.events

-- The approver of the step must still be active, unless the caller overrides.
abbrev is_active_user : Option User → Bool
is_active_user none = false
is_active_user (some u) = u.is_active

abbrev pub step_approver_active : Option ℕ → Db → Bool
step_approver_active none db = true
step_approver_active (some id) db = is_active_user (find_user id db)

unfoldable pub approve_request : Instant → ℕ → User → Use LeaveRequestRecord
approve_request i id caller = do
  aggregate ← load id
  lift_with rethrow_leave_domain_error (assert_approvable aggregate (to_leave_actor caller))
  active ← gets (step_approver_active (current_step_approver_id aggregate))
  throw_if (not (is_override (to_leave_actor caller)) && not active) (conflict approver)
  let done = apply_approval i.now aggregate (to_leave_actor caller)
  save id (approval_patch done caller) done.events

unfoldable pub reject_request : Instant → ℕ → User → Text → Use LeaveRequestRecord
reject_request i id caller note = do
  aggregate ← load id
  done ← lift_with rethrow_leave_domain_error (reject i.now aggregate (to_leave_actor caller) note)
  save id (rejection_patch done caller) done.events

pub record UpdateLeaveInput : Type 0 where
  pub leave_type : Option LeaveType
  pub start_date : Option Date
  pub end_date : Option Date
  pub day_portion : Option DayPortion
  pub reason : Change Text

abbrev recompute : UpdateLeaveInput → Bool
recompute patch =
    is_some patch.start_date
    || (is_some patch.end_date || (is_some patch.day_portion || is_some patch.leave_type))

-- The HR edit of a pending request.
unfoldable pub update_request : Instant → ℕ → UpdateLeaveInput → User → Use LeaveRequestRecord
update_request i id patch caller = do
  row ← or_throw (← gets (λ db. find_by_id id db.leaves)) not_found
  throw_if (not (is_pending row.status)) (conflict status)
  if not (recompute patch)
      then save id
          (λ r. record r { reason = merge patch.reason r.reason; updated_by = some caller.id }) []
      else (do
        rows ← gets (λ db. Schedules.find_active_for_employee row.employee_id db.schedules)
        range ←
            lift_with (λ e. e)
              (assert_submittable_range i.today rows (or_else patch.start_date row.start_date)
                (or_else patch.end_date row.end_date) (or_else patch.day_portion row.day_portion)
                (some (or_else patch.leave_type row.leave_type)))
        save id
            (λ r. record r {
              leave_type = or_else patch.leave_type r.leave_type;
              start_date = or_else patch.start_date r.start_date;
              end_date = or_else patch.end_date r.end_date;
              day_portion = or_else patch.day_portion row.day_portion;
              working_days = range.working_days;
              start_time = range.start_time;
              end_time = range.end_time;
              reason = merge patch.reason r.reason;
              updated_by = some caller.id;
            })
            [])

-- `findByIdForViewer`: who may read a request.
abbrev pub may_view : User → LeaveRequestRecord → Bool
may_view caller row =
    caller.id == row.employee_id
    || (caller.id == row.l1_approver_id
        || (same_option (some caller.id) row.l2_approver_id
            || (caller.system_admin || has_permission caller "LEAVE:ViewAll")))

unfoldable pub find_by_id_for_viewer : ℕ → User → Use LeaveRequestRecord
find_by_id_for_viewer id caller = do
  row ← or_throw (← gets (λ db. find_by_id id db.leaves)) not_found
  throw_if (not (may_view caller row)) forbidden_plain
  pure row
