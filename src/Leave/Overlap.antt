-- ===== src/Leave/Overlap.antt =====
-- The overlap check of `submit` of leave-requests/leave-requests.service.ts.
use native.Mathlib.Decide.{dec_le}
use asima_backend.Base.{
  ℕ, ◌+◌, ◌*◌, ◌≤◌, ◌≡◌, refl, ◌⊎◌, inl, inr, Bool, true, ◌&&◌, List, [], ◌∷◌, ◌++◌, Option, none,
  some, ok, arith, leb, is_empty, sum_where, sum_where-append, Bool-cases, Result-cases,
}
use asima_backend.Time.{Date}
use asima_backend.Access.{User}
use asima_backend.Db.{Db, Instant}
use asima_backend.Allocation.{sum_for_update}
use asima_backend.Storage.{ObjectStore}
use asima_backend.Leave.Record.{LeaveRequestRecord}
use asima_backend.Leave.Repository.{is_live_of, find_overlapping, sum_consumed}
use asima_backend.Leave.Service.{SubmitLeaveInput, Prepared, prepare, commit, submit}
use asima_backend.Leave.Reserve.{created_request, commit-Affordable, commit_short}
use asima_backend.Leave.Refusal.{prepare_ledger}

abbrev pub covers : ℕ → Date → LeaveRequestRecord → Bool
covers e d r = is_live_of e r && (leb r.start_date d && leb d r.end_date)

-- The pending and approved requests of an employee that cover a day.
abbrev pub requests_on : ℕ → Date → List LeaveRequestRecord → ℕ
requests_on e d = sum_where (covers e d) (λ _. 1)

none_on :
    (e : ℕ) (start end d : Date) (rows : List LeaveRequestRecord)
    → is_empty (find_overlapping e start end rows) ≡ true
    → start ≤ d
    → d ≤ end
    → requests_on e d rows ≡ 0
unfolding find_overlapping
none_on e start end d [] h k l = refl
none_on e start end d (r ∷ rows) h k l = ground (arith, none_on e start end d rows)

prepare_clear :
    (i : Instant) (w : ObjectStore) (input : SubmitLeaveInput) (actor : User)
    (file : Option (List ℕ)) (db : Db) (p : Prepared)
    → (prepare i w input actor file db).0 ≡ ok p
    → is_empty (find_overlapping input.employee_id input.start_date input.end_date db.leaves) ≡ true
unfolding prepare
prepare_clear i w input actor none db p h = ground arith
prepare_clear i w input actor (some buffer) db p h = ground arith

-- A commit appends one request of the submitted days, or none.
commit_appends :
    (i : Instant) (w : ObjectStore) (input : SubmitLeaveInput) (actor : User) (p : Prepared)
    (db : Db)
    → ((commit i w input actor p db).1.leaves ≡ db.leaves)
      ⊎ ((commit i w input actor p db).1.leaves
          ≡ db.leaves ++ created_request i input actor p db ∷ [])
commit_appends i w input actor p db =
    elim (dec_le (sum_consumed input.employee_id input.leave_type db.leaves + p.range.working_days)
      (sum_for_update input.employee_id input.leave_type db.allocations * 10)) [
        | yes fits ↦
            let (_, leaves, _, _) = commit-Affordable i w input actor p db fits in inr leaves
        | no short ↦
            let (_, leaves, _, _, _) = commit_short i w input actor p db short in inl leaves
      ]

-- No day is covered by two requests of an employee that are pending or approved: a submission keeps
-- this, whether it succeeds or not, as long as no other call runs between its check and its commit.
pub submit-requests_on :
    (i : Instant) (w : ObjectStore) (input : SubmitLeaveInput) (actor : User)
    (file : Option (List ℕ)) (db : Db) (e : ℕ) (d : Date)
    → requests_on e d db.leaves ≤ 1
    → requests_on e d (submit i w input actor file db).1.leaves ≤ 1
unfolding submit
submit-requests_on i w input actor file db e d h =
    let before = (prepare i w input actor file db).1 in
    let (kept, _) = prepare_ledger i w input actor file db in
    elim (Result-cases (prepare i w input actor file db).0) [
      | inr (x, bad) ↦
          let same : (submit i w input actor file db).1 ≡ before = ground arith in rw (same, kept) h
      | inl (p, good) ↦
          let same : (submit i w input actor file db).1 ≡ (commit i w input actor p before).1 =
            ground arith in
          let clear = prepare_clear i w input actor file db p good in
          let row = created_request i input actor p before in
          let split = sum_where-append (covers e d) (λ _. 1) db.leaves (row ∷ []) in
          rw same (elim (commit_appends i w input actor p before) [
            | inl unchanged ↦ rw (unchanged, kept) h
            | inr grown ↦
                rw (grown, kept)
                  (elim (Bool-cases (covers e d row)) [
                    | inl on ↦
                        let idle =
                          none_on input.employee_id input.start_date input.end_date d db.leaves
                            clear (ground arith) (ground arith) in
                        let own : input.employee_id ≡ e = ground arith in
                        ground (arith, split, idle, own)
                    | inr off ↦ ground (arith, split)
                  ])
          ])
    ]
