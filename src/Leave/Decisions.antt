-- ===== src/Leave/Decisions.antt =====
-- The use-cases that decide a stored leave request: what they leave in the table.
use asima_backend.Base.{
  ℕ, ◌≡◌, refl, ◌⊎◌, inl, inr, Bool, true, List, [], ◌++◌, some, ok, err, Error, not_found,
  internal, arith, ◌==◌, ◌&&◌, update_first, update_first-const, find-update_first, find_sound,
  is_none, Option-cases, Result-cases,
}
use asima_backend.Request.{Text, is_override}
use asima_backend.Access.{User}
use asima_backend.Db.{Db, Instant}
use asima_backend.Leave.Record.{LeaveRequestRecord, LeaveEvent}
use asima_backend.Leave.Aggregate.{
  invalid_value, LeaveRequest, reconstitute, current_step_approver_id, apply_approval, reject,
  cancel,
}
use asima_backend.Leave.Lifecycle.{Command, approve_by, reject_by, cancel_by, run_command}
use asima_backend.Leave.Repository.{find_by_id}
use asima_backend.Leave.Service.{
  to_leave_actor, load, save, cancel_patch, approval_patch, rejection_patch, cancel_request,
  approve_request, reject_request, step_approver_active,
}

abbrev is_stored : ℕ → LeaveRequestRecord → Bool
is_stored id r = r.id == id && is_none r.deleted_at

-- What a `save` of the loaded row leaves behind.
abbrev pub saved : ℕ → (LeaveRequestRecord → LeaveRequestRecord) → List LeaveEvent → Db → Db
saved id patch events db = record db {
  leaves = update_first (is_stored id) patch db.leaves;
  leave_events = db.leave_events ++ events;
}

pub save_lem :
    (id : ℕ) (patch : LeaveRequestRecord → LeaveRequestRecord) (events : List LeaveEvent) (db : Db)
    (row : LeaveRequestRecord)
    → find_by_id id db.leaves ≡ some row
    → (patch row).id ≡ row.id
    → (patch row).deleted_at ≡ row.deleted_at
    → save id patch events db ≡ (ok (patch row), saved id patch events db)
unfolding save find_by_id
save_lem id patch events db row h same_id same_deleted =
    let stored = find_sound (is_stored id) db.leaves row h in
    ground (arith, find-update_first (is_stored id) patch db.leaves row)

abbrev pub fresh : LeaveRequestRecord → LeaveRequest
fresh row = record { p = row; events = [] }

reconstitute_cases :
    (row : LeaveRequestRecord)
    → (reconstitute row ≡ ok (fresh row)) ⊎ (reconstitute row ≡ err invalid_value)
unfolding reconstitute
reconstitute_cases row = ground arith

pub load_cases :
    (id : ℕ) (db : Db)
    → ((e : Error) × (load id db ≡ (err e, db)))
      ⊎ ((row : LeaveRequestRecord) × (find_by_id id db.leaves ≡ some row)
          × (load id db ≡ (ok (fresh row), db)))
unfolding load
load_cases id db = elim (Option-cases (find_by_id id db.leaves)) [
  | inl missing ↦ inl (not_found, rw missing)
  | inr (row, found) ↦ elim (reconstitute_cases row) [
    | inl good ↦ inr (row, found, rw (found, good))
    | inr bad ↦ inl (internal, rw (found, bad))
  ]
]

-- What a decision that succeeds has done: the stored row took the command, the row that is
-- returned stands in its place and nothing else in the table has changed, and the events of the
-- aggregate were published.
pub record Decided (c : Command) (id : ℕ) (db : Db) (r : LeaveRequestRecord) (db' : Db)
    : Type 0 where
  pub row : LeaveRequestRecord
  pub done : LeaveRequest
  pub found : find_by_id id db.leaves ≡ some row
  pub ran : run_command (fresh row) c ≡ ok done
  pub same_status : r.status ≡ done.p.status
  pub same_employee : r.employee_id ≡ row.employee_id
  pub same_type : r.leave_type ≡ row.leave_type
  pub same_days : r.working_days ≡ row.working_days
  pub same_deleted : r.deleted_at ≡ row.deleted_at
  pub table : db'.leaves ≡ update_first (is_stored id) (λ _. r) db.leaves
  pub grants : db'.allocations ≡ db.allocations
  pub published : db'.leave_events ≡ db.leave_events ++ done.events

saved_table :
    (id : ℕ) (patch : LeaveRequestRecord → LeaveRequestRecord) (events : List LeaveEvent) (db : Db)
    (row : LeaveRequestRecord)
    → find_by_id id db.leaves ≡ some row
    → (saved id patch events db).leaves ≡ update_first (is_stored id) (λ _. patch row) db.leaves
unfolding find_by_id
saved_table id patch events db row h = update_first-const (is_stored id) patch db.leaves row h

-- A saved patch that leaves the request itself alone makes a decision of the command.
saved-Decided :
    (c : Command) (id : ℕ) (patch : LeaveRequestRecord → LeaveRequestRecord) (done : LeaveRequest)
    (db : Db) (row : LeaveRequestRecord)
    → find_by_id id db.leaves ≡ some row
    → run_command (fresh row) c ≡ ok done
    → (patch row).status ≡ done.p.status
    → (patch row).employee_id ≡ row.employee_id
    → (patch row).leave_type ≡ row.leave_type
    → (patch row).working_days ≡ row.working_days
    → (patch row).deleted_at ≡ row.deleted_at
    → Decided c id db (patch row) (saved id patch done.events db)
saved-Decided c id patch done db row found ran st em ty da de = record {
  row = row;
  done = done;
  found = found;
  ran = ran;
  same_status = st;
  same_employee = em;
  same_type = ty;
  same_days = da;
  same_deleted = de;
  table = saved_table id patch done.events db row found;
  grants = refl;
  published = refl;
}

-- A call that cannot load its request throws, and changes nothing.
module _ (i : Instant) (id : ℕ) (caller : User) (db : Db) (e : Error)
    (failed : load id db ≡ (err e, db)) where
  approve_unloaded : approve_request i id caller db ≡ (err e, db)
  unfolding approve_request
  approve_unloaded = ground arith

  reject_unloaded : (note : Text) → reject_request i id caller note db ≡ (err e, db)
  unfolding reject_request
  reject_unloaded note = ground arith

  cancel_unloaded : cancel_request i id caller db ≡ (err e, db)
  unfolding cancel_request
  cancel_unloaded = ground arith

module _ (i : Instant) (id : ℕ) (caller : User) (db : Db) where
  abbrev approving : LeaveRequestRecord → LeaveRequest
  approving row = apply_approval i.now (fresh row) (to_leave_actor caller)

  approve_loaded :
      (row : LeaveRequestRecord)
      → find_by_id id db.leaves ≡ some row
      → load id db ≡ (ok (fresh row), db)
      → (r : LeaveRequestRecord) (db' : Db) → approve_request i id caller db ≡ (ok r, db')
      → (run_command (fresh row) (approve_by i.now (to_leave_actor caller)) ≡ ok (approving row))
        × (r ≡ approval_patch (approving row) caller row)
        × (db' ≡ saved id (approval_patch (approving row) caller) (approving row).events db)
        × ((is_override (to_leave_actor caller) ≡ true)
            ⊎ (step_approver_active (current_step_approver_id (fresh row)) db ≡ true))
  unfolding approve_request run_command
  approve_loaded row found loaded r db' h = ground (
    arith,
    save_lem id (approval_patch (approving row) caller) (approving row).events db row found refl
        refl,
  )

  pub approve_request-Decided :
      (r : LeaveRequestRecord) (db' : Db)
      → approve_request i id caller db ≡ (ok r, db')
      → Decided (approve_by i.now (to_leave_actor caller)) id db r db'
        × ((is_override (to_leave_actor caller) ≡ true)
            ⊎ ((row : LeaveRequestRecord) × (find_by_id id db.leaves ≡ some row)
                × (step_approver_active (current_step_approver_id (fresh row)) db ≡ true)))
  approve_request-Decided r db' h = elim (load_cases id db) [
    | inl (x, failed) ↦ cc (approve_unloaded i id caller db x failed)
    | inr (row, found, loaded) ↦
        let (ran, same, state, active) = approve_loaded row found loaded r db' h in
        (
          rw (same, state)
              (saved-Decided (approve_by i.now (to_leave_actor caller)) id
                (approval_patch (approving row) caller) (approving row) db row found ran refl refl
                refl refl refl),
          elim active [ inl o ↦ inl o | inr a ↦ inr (row, found, a) ],
        )
  ]

  reject_loaded :
      (note : Text) (row : LeaveRequestRecord)
      → find_by_id id db.leaves ≡ some row
      → load id db ≡ (ok (fresh row), db)
      → (r : LeaveRequestRecord) (db' : Db) → reject_request i id caller note db ≡ (ok r, db')
      → (done : LeaveRequest) × (run_command
            (fresh row)
            (reject_by i.now (to_leave_actor caller) note)
          ≡ ok done)
        × (r ≡ rejection_patch done caller row)
        × (db' ≡ saved id (rejection_patch done caller) done.events db)
  unfolding reject_request run_command
  reject_loaded note row found loaded r db' h =
      elim (Result-cases (reject i.now (fresh row) (to_leave_actor caller) note)) [
        | inl (done, good) ↦
            let kept =
              save_lem id (rejection_patch done caller) done.events db row found refl refl in
            (done, good, ground (arith, kept), ground (arith, kept))
        | inr (e, bad) ↦ absurd (ground arith)
      ]

  -- A rejection that succeeds decides the stored request.
  pub reject_request-Decided :
      (note : Text) (r : LeaveRequestRecord) (db' : Db)
      → reject_request i id caller note db ≡ (ok r, db')
      → Decided (reject_by i.now (to_leave_actor caller) note) id db r db'
  reject_request-Decided note r db' h = elim (load_cases id db) [
    | inl (x, failed) ↦ cc (reject_unloaded i id caller db x failed note)
    | inr (row, found, loaded) ↦
        let (done, ran, same, state) = reject_loaded note row found loaded r db' h in
        rw (same, state)
          (saved-Decided (reject_by i.now (to_leave_actor caller) note) id
            (rejection_patch done caller) done db row found ran refl refl refl refl refl)
  ]

  cancel_loaded :
      (row : LeaveRequestRecord)
      → find_by_id id db.leaves ≡ some row
      → load id db ≡ (ok (fresh row), db)
      → (r : LeaveRequestRecord) (db' : Db) → cancel_request i id caller db ≡ (ok r, db')
      → (done : LeaveRequest) × (run_command
            (fresh row)
            (cancel_by i.now i.today (to_leave_actor caller))
          ≡ ok done)
        × (r ≡ cancel_patch done caller row)
        × (db' ≡ saved id (cancel_patch done caller) done.events db)
  unfolding cancel_request run_command
  cancel_loaded row found loaded r db' h =
      elim (Result-cases (cancel i.now i.today (fresh row) (to_leave_actor caller))) [
        | inl (done, good) ↦
            let kept = save_lem id (cancel_patch done caller) done.events db row found refl refl in
            (done, good, ground (arith, kept), ground (arith, kept))
        | inr (e, bad) ↦ absurd (ground arith)
      ]

  -- A cancellation that succeeds decides the stored request.
  pub cancel_request-Decided :
      (r : LeaveRequestRecord) (db' : Db)
      → cancel_request i id caller db ≡ (ok r, db')
      → Decided (cancel_by i.now i.today (to_leave_actor caller)) id db r db'
  cancel_request-Decided r db' h = elim (load_cases id db) [
    | inl (x, failed) ↦ cc (cancel_unloaded i id caller db x failed)
    | inr (row, found, loaded) ↦
        let (done, ran, same, state) = cancel_loaded row found loaded r db' h in
        rw (same, state)
          (saved-Decided (cancel_by i.now i.today (to_leave_actor caller)) id
            (cancel_patch done caller) done db row found ran refl refl refl refl refl)
  ]
