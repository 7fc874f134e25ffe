-- ===== src/Leave/History.antt =====
-- Histories of submissions, decisions and grants, in any order and with any arguments.
use asima_backend.Base.{
  ℕ, ◌≡◌, inl, inr, List, [], ◌∷◌, Option, none, some, ok, err, Error, arith, Result-cases,
  sum_where-append, Option-cases,
}
use asima_backend.Request.{Text}
use asima_backend.Access.{User}
use asima_backend.Db.{Db, Use, Instant, find_user}
use asima_backend.Allocation.{LeaveAllocationRecord, admin_grant, sum_for_update, grants_to}
use asima_backend.Allocation.Service.{RawAmount, assert_grantable, grant}
use asima_backend.Storage.{ObjectStore}
use asima_backend.Leave.Record.{LeaveType, LeaveRequestRecord}
use asima_backend.Leave.Lifecycle.{Command, approve_by, reject_by, cancel_by}
use asima_backend.Leave.Service.{
  SubmitLeaveInput, prepare, commit, submit, to_leave_actor, cancel_request, approve_request,
  reject_request,
}
use asima_backend.Leave.Reserve.{IsCovered, commit-IsCovered}
use asima_backend.Leave.Decisions.{
  Decided, approve_request-Decided, reject_request-Decided, cancel_request-Decided,
}
use asima_backend.Leave.Ledger.{Decided-consumed}
use asima_backend.Leave.Refusal.{
  SameLedger, prepare_ledger, approve_request-atomic, reject_request-atomic, cancel_request-atomic,
}

pub data Call : Type 0 where
  submits : Instant → ObjectStore → SubmitLeaveInput → User → Option (List ℕ) → Call
  approves : Instant → ℕ → User → Call
  rejects : Instant → ℕ → User → Text → Call
  cancels : Instant → ℕ → User → Call
  grants : ℕ → LeaveType → RawAmount → Option Text → User → Call

-- The state after a call, whether it returned or threw.
unfoldable pub serve : Db → Call → Db
serve db (submits i w input actor file) = (submit i w input actor file db).1
serve db (approves i id caller) = (approve_request i id caller db).1
serve db (rejects i id caller note) = (reject_request i id caller note db).1
serve db (cancels i id caller) = (cancel_request i id caller db).1
serve db (grants e t raw reason actor) = (grant e t raw reason actor db).1

unfoldable pub serve_all : Db → List Call → Db
serve_all db [] = db
serve_all db (c ∷ calls) = serve_all (serve db c) calls

ledger-IsCovered : (db db' : Db) → SameLedger db' db → IsCovered db → IsCovered db'
ledger-IsCovered db db' (leaves, allocations) h e t = rw (leaves, allocations) (h e t)

submit-IsCovered :
    (i : Instant) (w : ObjectStore) (input : SubmitLeaveInput) (actor : User)
    (file : Option (List ℕ)) (db : Db)
    → IsCovered db
    → IsCovered (submit i w input actor file db).1
unfolding submit
submit-IsCovered i w input actor file db h =
    let before = (prepare i w input actor file db).1 in
    let kept = ledger-IsCovered db before (prepare_ledger i w input actor file db) h in
    elim (Result-cases (prepare i w input actor file db).0) [
      | inl (p, good) ↦
          let same : (submit i w input actor file db).1 ≡ (commit i w input actor p before).1 =
            ground arith in
          rw same (commit-IsCovered i w input actor p before kept)
      | inr (e, bad) ↦
          let same : (submit i w input actor file db).1 ≡ before = ground arith in rw same kept
    ]

-- A decided request takes no further days, and the grants stand.
Decided-IsCovered :
    (c : Command) (id : ℕ) (db : Db) (r : LeaveRequestRecord) (db' : Db)
    → Decided c id db r db'
    → IsCovered db
    → IsCovered db'
Decided-IsCovered c id db r db' d h e t =
    let fewer = Decided-consumed c id db r db' d e t in rw d.grants (omega (arith, fewer, h e t))

grant-IsCovered :
    (e : ℕ) (t : LeaveType) (raw : RawAmount) (reason : Option Text) (actor : User) (db : Db)
    → IsCovered db
    → IsCovered (grant e t raw reason actor db).1
unfolding grant sum_for_update
grant-IsCovered e t raw reason actor db h employee kind =
    let covered = h employee kind in
    let more = sum_where-append (grants_to employee kind) (λ a. a.amount) db.allocations in
    elim (Option-cases (find_user e db)) [
      | inl unknown ↦ ground arith
      | inr (u, found) ↦ elim (Result-cases (assert_grantable raw)) [
        | inl (days, good) ↦
            let row : LeaveAllocationRecord = record {
              id = db.next_id;
              employee_id = e;
              leave_type = t;
              amount = days;
              source = admin_grant;
              reason = reason;
              granted_by = some actor.id;
              created_by = some actor.id;
              updated_by = some actor.id;
              deleted_at = none;
            } in
            let grown = more (row ∷ []) in ground arith
        | inr (x, bad) ↦ ground arith
      ]
    ]

-- A call that either decides a request or changes nothing.
either-IsCovered :
    (m : Use LeaveRequestRecord) (c : Command) (id : ℕ) (db : Db)
    → ((r : LeaveRequestRecord) (db' : Db) → m db ≡ (ok r, db') → Decided c id db r db')
    → ((e : Error) (db' : Db) → m db ≡ (err e, db') → db' ≡ db)
    → IsCovered db
    → IsCovered (m db).1
either-IsCovered m c id db decides atomic h = elim (Result-cases (m db).0) [
  | inl (r, good) ↦ Decided-IsCovered c id db r (m db).1 (decides r (m db).1 (cc good)) h
  | inr (e, bad) ↦ rw (atomic e (m db).1 (cc bad)) h
]

serve-IsCovered : (db : Db) (c : Call) → IsCovered db → IsCovered (serve db c)
unfolding serve
serve-IsCovered db (submits i w input actor file) h = submit-IsCovered i w input actor file db h
serve-IsCovered db (approves i id caller) h =
    either-IsCovered (approve_request i id caller) (approve_by i.now (to_leave_actor caller)) id db
      (λ r db' made. (approve_request-Decided i id caller db r db' made).0)
      (approve_request-atomic i id caller db) h
serve-IsCovered db (rejects i id caller note) h =
    either-IsCovered (reject_request i id caller note)
      (reject_by i.now (to_leave_actor caller) note) id db
      (reject_request-Decided i id caller db note)
      (λ e db' made. reject_request-atomic i id caller db e db' note made) h
serve-IsCovered db (cancels i id caller) h =
    either-IsCovered (cancel_request i id caller) (cancel_by i.now i.today (to_leave_actor caller))
      id db (cancel_request-Decided i id caller db) (cancel_request-atomic i id caller db) h
serve-IsCovered db (grants e t raw reason actor) h = grant-IsCovered e t raw reason actor db h

-- Where the days that are pending or approved are within the days that were granted, they stay so:
-- whatever submissions, decisions and grants follow one another, and whichever of them fail.
pub serve_all-IsCovered :
    (db : Db) (calls : List Call) → IsCovered db → IsCovered (serve_all db calls)
unfolding serve_all
serve_all-IsCovered db [] h = h
serve_all-IsCovered db (c ∷ calls) h =
    serve_all-IsCovered (serve db c) calls (serve-IsCovered db c h)
