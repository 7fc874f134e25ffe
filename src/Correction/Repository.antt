-- ===== src/Correction/Repository.antt =====
-- time-correction-requests/persistence/repositories/time-correction-request.repository.ts. The
-- lists are in the order of submission.
use asima_backend.Base.{
  ℕ, ◌==◌, ◌&&◌, Bool, false, is_none, List, Option, some, filter, find, any, leb, update_where,
  same_option,
}
use asima_backend.Time.{Date}
use asima_backend.Request.{
  Status, pending_l1, pending_l2, cancelled, is_pending, is_active_status, Text,
}
use asima_backend.Correction.Record.{TimeCorrectionRequestRecord}

abbrev pub is_request : ℕ → TimeCorrectionRequestRecord → Bool
is_request id r = r.id == id && is_none r.deleted_at

unfoldable pub find_by_id :
    ℕ → List TimeCorrectionRequestRecord → Option TimeCorrectionRequestRecord
find_by_id id = find (is_request id)

abbrev pub is_live : TimeCorrectionRequestRecord → Bool
is_live r = is_none r.deleted_at && is_active_status r.status

unfoldable pub find_active_for_employee_date :
    ℕ → Date → List TimeCorrectionRequestRecord → List TimeCorrectionRequestRecord
find_active_for_employee_date e date =
    filter (λ r. r.employee_id == e && (r.work_date == date && is_live r))

unfoldable pub find_active_for_entry :
    ℕ → List TimeCorrectionRequestRecord → List TimeCorrectionRequestRecord
find_active_for_entry entry = filter (λ r. same_option r.target_entry_id (some entry) && is_live r)

abbrev waits_for : ℕ → Status → TimeCorrectionRequestRecord → Bool
waits_for user pending_l1 r = r.l1_approver_id == user
waits_for user pending_l2 r = same_option r.l2_approver_id (some user)
waits_for user _ r = false

unfoldable pub find_pending_for_approver :
    ℕ → List TimeCorrectionRequestRecord → List TimeCorrectionRequestRecord
find_pending_for_approver user = filter (λ r. is_none r.deleted_at && waits_for user r.status r)

unfoldable pub find_all_pending :
    List TimeCorrectionRequestRecord → List TimeCorrectionRequestRecord
find_all_pending = filter (λ r. is_none r.deleted_at && is_pending r.status)

unfoldable pub find_active_candidates :
    ℕ → Date → List TimeCorrectionRequestRecord → List TimeCorrectionRequestRecord
find_active_candidates e from_date =
    filter (λ r. r.employee_id == e && (is_live r && leb from_date r.work_date))

-- Flips only rows that are still active.
unfoldable pub system_cancel :
    (now : ℕ)
    → List ℕ
    → (actor_id : ℕ) → Text
    → List TimeCorrectionRequestRecord
    → List TimeCorrectionRequestRecord
system_cancel now ids actor_id note =
    update_where (λ r. any (λ id. id == r.id) ids && is_live r)
      (λ r. record r {
        status = cancelled;
        cancelled_at = some now;
        cancelled_by = some actor_id;
        decision_note = some note;
        updated_by = some actor_id;
      })
