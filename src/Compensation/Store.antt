-- ===== src/Compensation/Store.antt =====
-- The writes of compensation/persistence/repositories/compensation.repository.ts, with the partial
-- unique index and the checks of the migration 1778700000000-CreateEmployeeCompensationsTable.ts.
use asima_backend.Base.{
  ℕ, ◌+◌, Bool, false, List, [], ◌∷◌, ◌++◌, Option, none, some, internal, unique_violation,
  sum_where, update_first, ltb, or_else, merge, ◌>>=◌, ◌>>◌, pure, gets, modify, or_throw, throw_if,
}
use asima_backend.Time.{Date}
use asima_backend.Compensation.Record.{CompensationRecord, CompensationAuditRecord}
use asima_backend.Compensation.Money.{PayRate}
use asima_backend.Compensation.Aggregate.{CompensationPatch}
use asima_backend.Compensation.Repository.{is_row, is_active, find_by_id}
use asima_backend.Db.{Use}

-- The rows that the index `IDX_employee_compensations_one_active_per_employee` counts.
abbrev pub active_count : ℕ → List CompensationRecord → ℕ
active_count e = sum_where (is_active e) (λ _. 1)

-- The check `CHK_employee_compensations_effective_range` fails.
abbrev pub is_backwards : CompensationRecord → Bool
is_backwards r =
    let to = r.effective_to in elim to [ none ↦ false | some t ↦ ltb t r.effective_from ]

abbrev pub patched : CompensationPatch → CompensationRecord → CompensationRecord
patched patch r = record r {
  monthly_salary = or_else patch.monthly_salary r.monthly_salary;
  hourly_rate = or_else patch.hourly_rate r.hourly_rate;
  hourly_rate_is_overridden = or_else patch.hourly_rate_is_overridden r.hourly_rate_is_overridden;
  effective_from = or_else patch.effective_from r.effective_from;
  effective_to = merge patch.effective_to r.effective_to;
  updated_by = merge patch.updated_by r.updated_by;
}

-- An INSERT or an UPDATE of `row`, which turns the table into `rows`.
abbrev pub save : CompensationRecord → List CompensationRecord → Use CompensationRecord
save row rows = do
  throw_if (is_backwards row) internal
  throw_if (ltb 1 (active_count row.employee_id rows)) unique_violation
  modify (λ db. record db { compensations = rows })
  pure row

abbrev pub new_compensation :
    ℕ → PayRate → Date → (created_by : Option ℕ) (id : ℕ) → CompensationRecord
new_compensation e rate x created_by id = record {
  id = id;
  employee_id = e;
  monthly_salary = rate.monthly_salary;
  hourly_rate = rate.hourly_rate;
  hourly_rate_is_overridden = rate.hourly_rate_is_overridden;
  effective_from = x;
  effective_to = none;
  created_by = created_by;
  updated_by = created_by;
  deleted_by = none;
  deleted_at = none;
}

unfoldable pub insert : ℕ → PayRate → Date → Option ℕ → Use CompensationRecord
insert e rate x created_by db =
    let row = new_compensation e rate x created_by db.next_id in
    save row (db.compensations ++ row ∷ []) (record db { next_id = db.next_id + 1 })

unfoldable pub update_row : ℕ → CompensationPatch → Use CompensationRecord
unfolding find_by_id
update_row id patch = do
  found ← gets (λ db. find_by_id id db.compensations)
  existing ← or_throw found internal
  rows ← gets (λ db. update_first (is_row id) (patched patch) db.compensations)
  save (patched patch existing) rows

abbrev pub removed : ℕ → Option ℕ → CompensationRecord → CompensationRecord
removed now deleted_by r = record r { deleted_by = deleted_by; deleted_at = some now }

unfoldable pub delete_row : (now id : ℕ) → Option ℕ → Use (Unit {0})
unfolding find_by_id
delete_row now id deleted_by = do
  found ← gets (λ db. find_by_id id db.compensations)
  or_throw found internal
  modify (λ db. record db {
    compensations = update_first (is_row id) (removed now deleted_by) db.compensations;
  })

abbrev pub record_audit : CompensationAuditRecord → Use (Unit {0})
record_audit audit = modify (λ db. record db { audits = db.audits ++ audit ∷ [] })
