-- ===== src/Leave/Refusal.antt =====
-- What a call of leave-requests/leave-requests.service.ts that throws leaves behind.
use asima_backend.Base.{
  ℕ, ◌≡◌, refl, inl, inr, List, Option, none, some, err, Error, arith, Result-cases,
}
use asima_backend.Request.{Text}
use asima_backend.Access.{User}
use asima_backend.Db.{Db, Instant}
use asima_backend.Storage.{ObjectStore}
use asima_backend.Storage.Service.{upload_for_owner}
use asima_backend.Leave.Aggregate.{apply_approval, reject, cancel}
use asima_backend.Leave.Decisions.{fresh, save_lem, load_cases}
use asima_backend.Leave.Service.{
  approval_patch, rejection_patch, cancel_patch, SubmitLeaveInput, prepare, to_leave_actor,
  cancel_request, approve_request, reject_request,
}

-- The two tables of the balance.
abbrev pub SameLedger : Db → Db → Type 0
SameLedger db' db = (db'.leaves ≡ db.leaves) × (db'.allocations ≡ db.allocations)

upload_ledger :
    (w : ObjectStore) (buffer : List ℕ) (owner actor : ℕ) (db : Db)
    → SameLedger (upload_for_owner w buffer owner actor db).1 db
unfolding upload_for_owner
upload_ledger w buffer owner actor db = ground arith

pub prepare_ledger :
    (i : Instant) (w : ObjectStore) (input : SubmitLeaveInput) (actor : User)
    (file : Option (List ℕ)) (db : Db)
    → SameLedger (prepare i w input actor file db).1 db
unfolding prepare
prepare_ledger i w input actor none db = ground arith
prepare_ledger i w input actor (some buffer) db =
    ground (arith, upload_ledger w buffer input.employee_id actor.id db)

-- A decision that throws changes nothing.
module _ (i : Instant) (id : ℕ) (caller : User) (db : Db) (e : Error) (db' : Db) where
  pub approve_request-atomic : approve_request i id caller db ≡ (err e, db') → db' ≡ db
  unfolding approve_request
  approve_request-atomic h = elim (load_cases id db) [
    | inl (x, failed) ↦ ground arith
    | inr (row, found, loaded) ↦
        let done = apply_approval i.now (fresh row) (to_leave_actor caller) in
        let kept = save_lem id (approval_patch done caller) done.events db row found refl refl in
        ground arith
  ]

  pub reject_request-atomic :
      (note : Text) → reject_request i id caller note db ≡ (err e, db') → db' ≡ db
  unfolding reject_request
  reject_request-atomic note h = elim (load_cases id db) [
    | inl (x, failed) ↦ ground arith
    | inr (row, found, loaded) ↦
        elim (Result-cases (reject i.now (fresh row) (to_leave_actor caller) note)) [
          | inl (done, good) ↦
              let kept =
                save_lem id (rejection_patch done caller) done.events db row found refl refl in
              ground arith
          | inr (x, bad) ↦ ground arith
        ]
  ]

  pub cancel_request-atomic : cancel_request i id caller db ≡ (err e, db') → db' ≡ db
  unfolding cancel_request
  cancel_request-atomic h = elim (load_cases id db) [
    | inl (x, failed) ↦ ground arith
    | inr (row, found, loaded) ↦
        elim (Result-cases (cancel i.now i.today (fresh row) (to_leave_actor caller))) [
          | inl (done, good) ↦
              let kept =
                save_lem id (cancel_patch done caller) done.events db row found refl refl in
              ground arith
          | inr (x, bad) ↦ ground arith
        ]
  ]
