-- ===== src/Correction/Service.antt =====
-- time-correction-requests/time-correction-requests.service.ts: the use-cases, over the shared
-- state.
use asima_backend.Base.{
  ℕ, ◌+◌, Bool, true, false, not, ◌&&◌, ◌||◌, ◌==◌, List, [], ◌∷◌, ◌++◌, Option, none, some, ok,
  Error, unprocessable, conflict, forbidden, forbidden_plain, not_found, internal, status, approver,
  decision_note, approval_chain, target_entry_id, work_date, proposed_time_out, ◌>>=◌, ◌>>◌, pure,
  throw_if, gets, modify, or_throw, lift_with, is_none, is_empty, filter, same_option, or_else,
  update_first, Change, merge,
}
use asima_backend.Time.{Date}
use asima_backend.Request.{Status, pending_l1, approved, is_pending, is_override, Actor, Text}
use asima_backend.Access.{User, has_permission}
use asima_backend.Db.{Db, Use, Instant, find_user}
use asima_backend.Chain as Chains
use asima_backend.Entry as Entries
use asima_backend.Entry.Service.{CorrectionInput, apply_correction, has_entry_on_date}
use asima_backend.Correction.Record.{TimeCorrectionRequestRecord, CorrectionEvent, submitted}
use asima_backend.Correction.Aggregate.{
  CorrectionError, correction_status, not_current_approver, rejection_note_required,
  not_allowed_to_cancel, invalid_proposed_window, new_log_contract, TimeCorrectionRequest,
  assert_proposed_window, reconstitute, current_step_approver_id, assert_approvable, apply_approval,
  reject, cancel, assert_new_log_contract,
}
use asima_backend.Correction.Repository.{
  is_request, find_by_id, find_active_for_employee_date, find_active_for_entry,
}

abbrev pub rethrow_correction_domain_error : CorrectionError → Error
rethrow_correction_domain_error correction_status = conflict status
rethrow_correction_domain_error not_current_approver = forbidden approver
rethrow_correction_domain_error rejection_note_required = unprocessable decision_note
rethrow_correction_domain_error not_allowed_to_cancel = forbidden_plain
rethrow_correction_domain_error invalid_proposed_window = unprocessable proposed_time_out
rethrow_correction_domain_error (new_log_contract field) = unprocessable field

abbrev pub to_correction_actor : User → Actor
to_correction_actor caller = record {
  user_id = caller.id;
  is_system_admin = caller.system_admin;
  can_approve = has_permission caller "TIME_CORRECTION:Approve";
  can_approve_any = has_permission caller "TIME_CORRECTION:ApproveAny";
  can_delete = has_permission caller "TIME_CORRECTION:Delete";
}

pub record SubmitCorrectionInput : Type 0 where
  pub employee_id : ℕ
  pub target_entry_id : Option ℕ
  pub work_date : Date
  pub proposed_time_in : ℕ
  pub proposed_time_out : Option ℕ
  pub reason : Text

-- The ownership guard and the two searches for a duplicate.
abbrev assert_no_duplicate : SubmitCorrectionInput → Option ℕ → Use (Unit {0})
assert_no_duplicate input (some entry) = do
  target ← or_throw (← gets (λ db. Entries.find_by_id entry db.entries)) not_found
  throw_if (not (target.employee_id == input.employee_id)) forbidden_plain
  existing ← gets (λ db. find_active_for_entry entry db.corrections)
  throw_if (not (is_empty existing)) (unprocessable target_entry_id)
assert_no_duplicate input none = do
  same_date ←
      gets (λ db. find_active_for_employee_date input.employee_id input.work_date db.corrections)
  throw_if (not (is_empty (filter (λ r. is_none r.target_entry_id) same_date)))
      (unprocessable work_date)

-- The row that `repository.create` inserts.
abbrev pub new_request :
    Instant
    → SubmitCorrectionInput
    → User
    → (l1 : ℕ) → Option ℕ
    → (id : ℕ) → TimeCorrectionRequestRecord
new_request i input actor l1 l2 id = record {
  id = id;
  employee_id = input.employee_id;
  target_entry_id = input.target_entry_id;
  work_date = input.work_date;
  proposed_time_in = input.proposed_time_in;
  proposed_time_out = input.proposed_time_out;
  reason = input.reason;
  status = pending_l1;
  submitted_at = i.now;
  decided_at = none;
  decided_by = none;
  decision_note = none;
  decision_path = none;
  cancelled_at = none;
  cancelled_by = none;
  l1_approver_id = l1;
  l2_approver_id = l2;
  created_by = some actor.id;
  updated_by = some actor.id;
  deleted_at = none;
}

insert_request :
    Instant → SubmitCorrectionInput → User → ℕ → Option ℕ → Use TimeCorrectionRequestRecord
insert_request i input actor l1 l2 db =
    let row = new_request i input actor l1 l2 db.next_id in
    (ok row, record db { next_id = db.next_id + 1; corrections = db.corrections ++ row ∷ [] })

unfoldable pub submit : Instant → SubmitCorrectionInput → User → Use TimeCorrectionRequestRecord
unfolding insert_request
submit i input actor = do
  lift_with rethrow_correction_domain_error
      (assert_proposed_window input.proposed_time_in input.proposed_time_out)
  chain ← gets (λ db. Chains.get_active input.employee_id db.chains)
  l1 ← or_throw chain.l1_approver_id (unprocessable approval_chain)
  assert_no_duplicate input input.target_entry_id
  lift_with rethrow_correction_domain_error (
      assert_new_log_contract input.target_entry_id input.proposed_time_out input.work_date
        i.utc_today)
  exists ← gets (has_entry_on_date input.employee_id input.work_date)
  throw_if (is_none input.target_entry_id && exists) (unprocessable work_date)
  created ← insert_request i input actor l1 chain.l2_approver_id
  modify (λ db. record db {
    correction_events =
        db.correction_events
        ++ submitted created.id created.employee_id created.l1_approver_id ∷ [];
  })
  pure created

-- `findAggregateById`, with the 404.
unfoldable pub load : ℕ → Use TimeCorrectionRequest
load id = do
  row ← or_throw (← gets (λ db. find_by_id id db.corrections)) not_found
  lift_with rethrow_correction_domain_error (reconstitute row)

-- `repository.update`, which saves and reads back, and `publisher.publish(pullEvents())`.
unfoldable pub save :
    ℕ
    → (TimeCorrectionRequestRecord → TimeCorrectionRequestRecord)
    → List CorrectionEvent
    → Use TimeCorrectionRequestRecord
save id patch events = do
  or_throw (← gets (λ db. find_by_id id db.corrections)) internal >>= λ _. pure tt
  modify (λ db. record db { corrections = update_first (is_request id) patch db.corrections })
  saved ← or_throw (← gets (λ db. find_by_id id db.corrections)) internal
  modify (λ db. record db { correction_events = db.correction_events ++ events })
  pure saved

abbrev pub cancel_patch :
    TimeCorrectionRequest → User → TimeCorrectionRequestRecord → TimeCorrectionRequestRecord
cancel_patch done caller r = record r {
  status = done.p.status;
  cancelled_at = done.p.cancelled_at;
  cancelled_by = done.p.cancelled_by;
  updated_by = some caller.id;
}

abbrev pub approval_patch :
    TimeCorrectionRequest → User → TimeCorrectionRequestRecord → TimeCorrectionRequestRecord
approval_patch done caller r = record r {
  status = done.p.status;
  decided_at = done.p.decided_at;
  decided_by = done.p.decided_by;
  decision_path = done.p.decision_path;
  updated_by = some caller.id;
}

abbrev pub rejection_patch :
    TimeCorrectionRequest → User → TimeCorrectionRequestRecord → TimeCorrectionRequestRecord
rejection_patch done caller r = record r {
  status = done.p.status;
  decided_at = done.p.decided_at;
  decided_by = done.p.decided_by;
  decision_note = done.p.decision_note;
  decision_path = done.p.decision_path;
  updated_by = some caller.id;
}

unfoldable pub cancel_request : Instant → ℕ → User → Use TimeCorrectionRequestRecord
cancel_request i id caller = do
  aggregate ← load id
  done ←
      lift_with rethrow_correction_domain_error
        (cancel i.now aggregate (to_correction_actor caller))
  save id (cancel_patch done caller) done.events

unfoldable pub reject_request : Instant → ℕ → User → Text → Use TimeCorrectionRequestRecord
reject_request i id caller note = do
  aggregate ← load id
  done ←
      lift_with rethrow_correction_domain_error
        (reject i.now aggregate (to_correction_actor caller) note)
  save id (rejection_patch done caller) done.events

abbrev is_active_user : Option User → Bool
is_active_user none = false
is_active_user (some u) = u.is_active

abbrev pub step_approver_active : Option ℕ → Db → Bool
step_approver_active none db = true
step_approver_active (some id) db = is_active_user (find_user id db)

-- The write of the timesheet that the final approval makes, before the request itself is saved.
abbrev pub correction_of : TimeCorrectionRequest → User → CorrectionInput
correction_of r caller = record {
  employee_id = r.p.employee_id;
  target_entry_id = r.p.target_entry_id;
  work_date = r.p.work_date;
  proposed_time_in = r.p.proposed_time_in;
  proposed_time_out = r.p.proposed_time_out;
  decided_by = some caller.id;
}

abbrev write_timesheet : TimeCorrectionRequest → User → Status → Use (Unit {0})
write_timesheet r caller approved = apply_correction (correction_of r caller) >>= λ _. pure tt
write_timesheet r caller _ = pure tt

unfoldable pub approve_request : Instant → ℕ → User → Use TimeCorrectionRequestRecord
approve_request i id caller = do
  aggregate ← load id
  lift_with rethrow_correction_domain_error
      (assert_approvable aggregate (to_correction_actor caller))
  active ← gets (step_approver_active (current_step_approver_id aggregate))
  throw_if (not (is_override (to_correction_actor caller)) && not active) (conflict approver)
  let done = apply_approval i.now aggregate (to_correction_actor caller)
  write_timesheet done caller done.p.status
  save id (approval_patch done caller) done.events

pub record UpdateCorrectionInput : Type 0 where
  pub work_date : Option Date
  pub proposed_time_in : Option ℕ
  pub proposed_time_out : Change ℕ
  pub reason : Option Text

-- The HR edit of a pending request.
unfoldable pub update_request : ℕ → UpdateCorrectionInput → User → Use TimeCorrectionRequestRecord
update_request id patch caller = do
  row ← or_throw (← gets (λ db. find_by_id id db.corrections)) not_found
  throw_if (not (is_pending row.status)) (conflict status)
  lift_with rethrow_correction_domain_error (
      assert_proposed_window (or_else patch.proposed_time_in row.proposed_time_in)
        (merge patch.proposed_time_out row.proposed_time_out))
  save id
      (λ r. record r {
        work_date = or_else patch.work_date r.work_date;
        proposed_time_in = or_else patch.proposed_time_in r.proposed_time_in;
        proposed_time_out = merge patch.proposed_time_out r.proposed_time_out;
        reason = or_else patch.reason r.reason;
        updated_by = some caller.id;
      })
      []

-- `findByIdForViewer`: who may read a request.
abbrev pub may_view : User → TimeCorrectionRequestRecord → Bool
may_view caller row =
    caller.id == row.employee_id
    || (caller.id == row.l1_approver_id
        || (same_option (some caller.id) row.l2_approver_id
            || (caller.system_admin || has_permission caller "TIME_CORRECTION:ViewAll")))

unfoldable pub find_by_id_for_viewer : ℕ → User → Use TimeCorrectionRequestRecord
find_by_id_for_viewer id caller = do
  row ← or_throw (← gets (λ db. find_by_id id db.corrections)) not_found
  throw_if (not (may_view caller row)) forbidden_plain
  pure row
