-- ===== src/Correction/Approval.antt =====
-- `approve` of time-correction-requests/time-correction-requests.service.ts: the request and the
-- timesheet that it writes.
use asima_backend.Base.{
  ℕ, ◌≡◌, refl, ◌⊎◌, inl, inr, Bool, true, not, ◌&&◌, List, [], ◌++◌, some, ok, err, Error, arith,
  find_sound, find-update_first, update_first, Option-cases, Bool-cases, Result-cases, not_found,
  conflict, approver,
}
use asima_backend.Request.{approved, pending_l2, is_override}
use asima_backend.Access.{User}
use asima_backend.Db.{Db, Instant}
use asima_backend.Entry.{TimeEntryRecord}
use asima_backend.Entry.Service.{apply_correction}
use asima_backend.Correction.Record.{TimeCorrectionRequestRecord, CorrectionEvent}
use asima_backend.Correction.Aggregate.{
  assert_proposed_window, TimeCorrectionRequest, reconstitute, assert_approvable, apply_approval,
  current_step_approver_id, next_status_after_approval,
}
use asima_backend.Correction.Repository.{is_request, find_by_id}
use asima_backend.Correction.Service.{
  to_correction_actor, load, save, approve_request, approval_patch, correction_of,
  step_approver_active, rethrow_correction_domain_error,
}
use asima_backend.Correction.Frame.{apply_correction-IsFramed}

abbrev pub fresh : TimeCorrectionRequestRecord → TimeCorrectionRequest
fresh row = record { p = row; events = [] }

save_lem :
    (id : ℕ) (patch : TimeCorrectionRequestRecord → TimeCorrectionRequestRecord)
    (events : List CorrectionEvent) (db : Db) (row : TimeCorrectionRequestRecord)
    → find_by_id id db.corrections ≡ some row
    → (patch row).id ≡ row.id
    → (patch row).deleted_at ≡ row.deleted_at
    → save id patch events db ≡ (
      ok (patch row),
      record db {
        corrections = update_first (is_request id) patch db.corrections;
        correction_events = db.correction_events ++ events;
      },
    )
unfolding save find_by_id
save_lem id patch events db row h same_id same_deleted =
    let stored = find_sound (is_request id) db.corrections row h in
    ground (arith, find-update_first (is_request id) patch db.corrections row)

load_cases :
    (id : ℕ) (db : Db)
    → ((e : Error) × (load id db ≡ (err e, db)))
      ⊎ ((row : TimeCorrectionRequestRecord) × (find_by_id id db.corrections ≡ some row)
          × (load id db ≡ (ok (fresh row), db)))
unfolding load reconstitute
load_cases id db = elim (Option-cases (find_by_id id db.corrections)) [
  | inl missing ↦ inl (not_found, ground arith)
  | inr (row, found) ↦
      elim (Result-cases (assert_proposed_window row.proposed_time_in row.proposed_time_out)) [
        | inl (_, good) ↦ inr (row, found, ground arith)
        | inr (e, bad) ↦ inl (rethrow_correction_domain_error e, ground arith)
      ]
]

-- Both outcomes of an approval: it throws with nothing changed, or the request is saved in the
-- state that the chain gives, after the timesheet was written if that state is `approved`.
pub data Approved (i : Instant) (id : ℕ) (caller : User) (db : Db) : Type 0 where
  thrown : (e : Error) → approve_request i id caller db ≡ (err e, db) → Approved i id caller db
  advanced :
      (row : TimeCorrectionRequestRecord) (done : TimeCorrectionRequest) (db' : Db)
      → find_by_id id db.corrections ≡ some row
      → done ≡ apply_approval i.now (fresh row) (to_correction_actor caller)
      → done.p.status ≡ pending_l2
      → approve_request i id caller db ≡ (ok (approval_patch done caller row), db')
      → db'.entries ≡ db.entries
      → Approved i id caller db
  settled :
      (row : TimeCorrectionRequestRecord) (done : TimeCorrectionRequest) (db1 : Db)
      (e : TimeEntryRecord) (db' : Db)
      → find_by_id id db.corrections ≡ some row
      → done ≡ apply_approval i.now (fresh row) (to_correction_actor caller)
      → done.p.status ≡ approved
      → apply_correction (correction_of done caller) db ≡ (ok e, db1)
      → approve_request i id caller db ≡ (ok (approval_patch done caller row), db')
      → db'.entries ≡ db1.entries
      → Approved i id caller db

next_cases :
    (r : TimeCorrectionRequest) (o : Bool)
    → (next_status_after_approval r o ≡ pending_l2) ⊎ (next_status_after_approval r o ≡ approved)
unfolding next_status_after_approval
next_cases r o = ground arith

module _ (i : Instant) (id : ℕ) (caller : User) (db : Db) where
  approve_settles :
      (row : TimeCorrectionRequestRecord)
      → find_by_id id db.corrections ≡ some row
      → load id db ≡ (ok (fresh row), db)
      → assert_approvable (fresh row) (to_correction_actor caller) ≡ ok tt
      → (is_override (to_correction_actor caller) ≡ true)
        ⊎ (step_approver_active (current_step_approver_id (fresh row)) db ≡ true)
      → next_status_after_approval (fresh row) (is_override (to_correction_actor caller)) ≡ approved
      → Approved i id caller db
  unfolding approve_request apply_approval
  approve_settles row found loaded good active final =
      let done = apply_approval i.now (fresh row) (to_correction_actor caller) in
      elim (apply_correction-IsFramed (correction_of done caller) db) [
        | inl (x, failed) ↦ Approved.thrown x (ground arith)
        | inr (e, db1, wrote, kept, published) ↦
            let saved =
              save_lem id (approval_patch done caller) done.events db1 row (rw kept found) refl
                refl in
            Approved.settled row done db1 e (approve_request i id caller db).1 found refl
              (ground arith) wrote (ground arith) (ground arith)
      ]

  approve_advances :
      (row : TimeCorrectionRequestRecord)
      → find_by_id id db.corrections ≡ some row
      → load id db ≡ (ok (fresh row), db)
      → assert_approvable (fresh row) (to_correction_actor caller) ≡ ok tt
      → (is_override (to_correction_actor caller) ≡ true)
        ⊎ (step_approver_active (current_step_approver_id (fresh row)) db ≡ true)
      → next_status_after_approval (fresh row) (is_override (to_correction_actor caller))
        ≡ pending_l2
      → Approved i id caller db
  unfolding approve_request apply_approval
  approve_advances row found loaded good active next =
      let done = apply_approval i.now (fresh row) (to_correction_actor caller) in
      let saved = save_lem id (approval_patch done caller) done.events db row found refl refl in
      Approved.advanced row done (approve_request i id caller db).1 found refl (ground arith)
        (ground arith) (ground arith)

  approve_cleared :
      (row : TimeCorrectionRequestRecord)
      → find_by_id id db.corrections ≡ some row
      → load id db ≡ (ok (fresh row), db)
      → assert_approvable (fresh row) (to_correction_actor caller) ≡ ok tt
      → Approved i id caller db
  unfolding approve_request
  approve_cleared row found loaded good =
      elim (Bool-cases (
        not (is_override (to_correction_actor caller))
        && not (step_approver_active (current_step_approver_id (fresh row)) db))) [
          | inl gone ↦ Approved.thrown (conflict approver) (ground arith)
          | inr there ↦
              let active : (is_override (to_correction_actor caller) ≡ true)
                  ⊎ (step_approver_active (current_step_approver_id (fresh row)) db ≡ true) =
                ground arith in
              elim (next_cases (fresh row) (is_override (to_correction_actor caller))) [
                | inl next ↦ approve_advances row found loaded good active next
                | inr final ↦ approve_settles row found loaded good active final
              ]
        ]

  pub approve_request_cases : Approved i id caller db
  unfolding approve_request
  approve_request_cases = elim (load_cases id db) [
    | inl (e, failed) ↦ Approved.thrown e (ground arith)
    | inr (row, found, loaded) ↦
        elim (Result-cases (assert_approvable (fresh row) (to_correction_actor caller))) [
          | inl (_, good) ↦ approve_cleared row found loaded good
          | inr (e, bad) ↦ Approved.thrown (rethrow_correction_domain_error e) (ground arith)
        ]
  ]

  pub approve_request-atomic :
      (e : Error) (db' : Db) → approve_request i id caller db ≡ (err e, db') → db' ≡ db
  approve_request-atomic e db' h = elim approve_request_cases [
    | thrown x same ↦ ground arith
    | advanced row done db1 _ _ _ same _ ↦ absurd (ground arith)
    | settled row done db1 e1 db2 _ _ _ _ same _ ↦ absurd (ground arith)
  ]
