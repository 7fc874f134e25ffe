-- ===== src/Leave/Reserve.antt =====
-- Reserve-on-submit: the requests that are pending or approved never take more days of a type than
-- were granted.
use native.Mathlib.Decide.{dec_le}
use asima_backend.Base.{
  ℕ, ◌+◌, ◌*◌, ◌≤◌, ◌≡◌, ◌⊎◌, inl, inr, true, [], ◌∷◌, ◌++◌, Option, none, some, ok, err, arith,
  unprocessable, balance, sum_where-append,
}
use asima_backend.Access.{User}
use asima_backend.Db.{Db, Instant}
use asima_backend.Allocation.{sum_for_update}
use asima_backend.Storage.{ObjectStore, PreparedAttachment}
use asima_backend.Storage.Service.{persist, cleanup}
use asima_backend.Leave.Record.{LeaveType, same_type, LeaveRequestRecord, submitted}
use asima_backend.Leave.Repository.{is_consumed_by, sum_consumed}
use asima_backend.Leave.Service.{SubmitLeaveInput, Prepared, new_request, commit}

-- What the employees hold of each type, in tenths of a day, is covered by their grants.
abbrev pub IsCovered : Db → Type 0
IsCovered db =
    (employee_id : ℕ) (t : LeaveType)
    → sum_consumed employee_id t db.leaves ≤ sum_for_update employee_id t db.allocations * 10

-- The ids that the transaction draws: the attachment's row comes first.
abbrev pub request_id : Option PreparedAttachment → ℕ → ℕ
request_id none next = next
request_id (some _) next = next + 1

abbrev pub file_id : Option PreparedAttachment → ℕ → Option ℕ
file_id none next = none
file_id (some _) next = some next

-- The request that `commit` makes of what was prepared.
abbrev pub created_request : Instant → SubmitLeaveInput → User → Prepared → Db → LeaveRequestRecord
created_request i input actor p db =
    new_request i input actor p (request_id p.file db.next_id) (file_id p.file db.next_id)

-- The days that the request would bring the employee's use of the type to are granted.
abbrev pub Affordable : SubmitLeaveInput → Prepared → Db → Type 0
Affordable input p db =
    sum_consumed input.employee_id input.leave_type db.leaves + p.range.working_days
    ≤ sum_for_update input.employee_id input.leave_type db.allocations * 10

module _ (i : Instant) (w : ObjectStore) (input : SubmitLeaveInput) (actor : User) (p : Prepared)
    (db : Db) where
  pub commit-Affordable :
      Affordable input p db
      → let row = created_request i input actor p db in
        let (r, db') = commit i w input actor p db in
        (r ≡ ok row)
        × (db'.leaves ≡ db.leaves ++ row ∷ [])
        × (db'.allocations ≡ db.allocations)
        × (db'.leave_events
            ≡ db.leave_events ++ submitted row.id row.employee_id row.l1_approver_id ∷ [])
  unfolding commit persist
  commit-Affordable h = ground arith

  pub commit_short :
      ¬ (Affordable input p db)
      → let (r, db') = commit i w input actor p db in
        (r ≡ err (unprocessable balance))
        × (db'.leaves ≡ db.leaves)
        × (db'.allocations ≡ db.allocations)
        × (db'.attachments ≡ db.attachments)
        × (db'.leave_events ≡ db.leave_events)
  unfolding commit persist cleanup
  commit_short h = ground arith

same_type-eq : (s t : LeaveType) → same_type s t ≡ true → s ≡ t
same_type-eq s t h = ground arith

sum_consumed-created :
    (i : Instant) (input : SubmitLeaveInput) (actor : User) (p : Prepared) (db : Db) (e : ℕ)
    (t : LeaveType)
    → ((e ≡ input.employee_id)
        × (t ≡ input.leave_type)
        × (sum_consumed e t (db.leaves ++ created_request i input actor p db ∷ [])
            ≡ sum_consumed e t db.leaves + p.range.working_days))
      ⊎ (sum_consumed e t (db.leaves ++ created_request i input actor p db ∷ [])
          ≡ sum_consumed e t db.leaves)
unfolding sum_consumed
sum_consumed-created i input actor p db e t =
    let row = created_request i input actor p db in
    let split = sum_where-append (is_consumed_by e t) (λ r. r.working_days) db.leaves (row ∷ []) in
    ground (arith, split, same_type-eq input.leave_type t)

-- A submission keeps every balance covered, whatever was checked before the transaction.
pub commit-IsCovered :
    (i : Instant) (w : ObjectStore) (input : SubmitLeaveInput) (actor : User) (p : Prepared)
    (db : Db)
    → IsCovered db
    → IsCovered (commit i w input actor p db).1
commit-IsCovered i w input actor p db h e t =
    elim (dec_le (sum_consumed input.employee_id input.leave_type db.leaves + p.range.working_days)
      (sum_for_update input.employee_id input.leave_type db.allocations * 10)) [
        | yes fits ↦
            let (_, leaves, allocations, _) = commit-Affordable i w input actor p db fits in
            rw (leaves, allocations)
              (elim (sum_consumed-created i input actor p db e t) [
                | inl (same_e, same_t, sum) ↦ rw (sum, same_e, same_t) fits
                | inr sum ↦ rw sum (h e t)
              ])
        | no short ↦
            let (_, leaves, allocations, _, _) = commit_short i w input actor p db short in
            rw (leaves, allocations) (h e t)
      ]
