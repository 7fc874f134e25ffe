-- ===== src/Chain/Service.antt =====
-- approval-chains/approval-chains.service.ts, with `applyStepChanges` of
-- persistence/repositories/approval-chain.repository.ts and the unique index and check of the
-- table.
use asima_backend.Base.{
  ℕ, ◌+◌, Bool, ◌&&◌, not, List, [], ◌∷◌, ◌++◌, Option, none, some, unprocessable, not_found,
  internal, unique_violation, ok, err, approver_id, to_approver_id, employee_ids, step, Change,
  keep, clear, put, any, find, length, is_empty, is_none, sum_where, update_where, ltb, ◌==◌,
  if◌then◌else◌, ◌>>=◌, ◌>>◌, pure, throw, throw_if, gets, modify, or_throw, lift_with, transaction,
}
use asima_backend.Access.{User}
use asima_backend.Chain.Record.{
  ApprovalChain, SetChainInput, ActiveChain, ChainInsert, StepChanges, BulkReassignResult,
  BulkAssignInput, BulkAssignResult,
}
use asima_backend.Chain.Repository.{
  find_active_for_employee, find_active_for_employees, find_active_by_approver, get_active, at_step,
}
use asima_backend.Chain.Steps.{
  compute_step_changes, is_change, reassign_each, skipped_employees, assign_each, unique,
}
use asima_backend.Db.{Instant, Use, find_user}

-- The rows that the index `IDX_approval_chains_active_step_uq` counts.
abbrev pub is_active_at : (employee s : ℕ) → ApprovalChain → Bool
is_active_at e s r = r.employee_id == e && (r.step == s && is_none r.ended_at)

abbrev pub active_count : (employee s : ℕ) → List ApprovalChain → ℕ
active_count e s = sum_where (is_active_at e s) (λ _. 1)

abbrev pub ended : (now : ℕ) → Option ℕ → ApprovalChain → ApprovalChain
ended now actor r = record r { ended_at = some now; updated_by = actor }

abbrev pub is_listed : List ℕ → ApprovalChain → Bool
is_listed ids r = any (λ id. id == r.id) ids

abbrev pub chain_row : ChainInsert → (id : ℕ) → ApprovalChain
chain_row ins id = record {
  id = id;
  employee_id = ins.employee_id;
  step = ins.step;
  approver_id = ins.approver_id;
  ended_at = none;
  created_by = ins.created_by;
  updated_by = ins.created_by;
}

-- The check `CHK_approval_chains_no_self_approval` comes before the unique index.
unfoldable pub insert_chain : ChainInsert → Use (Unit {0})
insert_chain ins db =
    let rows = db.chains ++ chain_row ins db.next_id ∷ [] in
    if ins.approver_id == ins.employee_id
    then (err internal, db)
    else if ltb 1 (active_count ins.employee_id ins.step rows)
    then (err unique_violation, db)
    else (ok tt, record db { next_id = db.next_id + 1; chains = rows })

unfoldable pub insert_all : List ChainInsert → Use (Unit {0})
insert_all [] = pure tt
insert_all (ins ∷ inserts) = insert_chain ins >> insert_all inserts

unfoldable pub apply_step_changes : (now : ℕ) → StepChanges → Option ℕ → Use (Unit {0})
unfolding insert_all
apply_step_changes now changes actor = transaction (do
  modify (λ db. record db {
    chains = update_where (is_listed changes.ends) (ended now actor) db.chains;
  })
  insert_all changes.inserts)

abbrev write_changes : ℕ → StepChanges → Option ℕ → Use (Unit {0})
unfolding apply_step_changes
write_changes now changes actor =
    if is_change changes then apply_step_changes now changes actor else pure tt

unfoldable pub check_active : Option User → Use (Unit {0})
check_active none = throw (unprocessable approver_id)
check_active (some user) = throw_if (not user.is_active) (unprocessable approver_id)

unfoldable pub assert_user_active : ℕ → Use (Unit {0})
unfolding check_active
assert_user_active id = gets (find_user id) >>= check_active

abbrev assert_valid_approver : ℕ → (employee_id : ℕ) → Use (Unit {0})
unfolding assert_user_active
assert_valid_approver a e = do throw_if (a == e) (unprocessable approver_id); assert_user_active a

unfoldable pub assert_given : Change ℕ → (employee_id : ℕ) → Use (Unit {0})
unfolding assert_user_active
assert_given keep e = pure tt
assert_given clear e = pure tt
assert_given (put a) e = assert_valid_approver a e

abbrev assert_employee_exists : ℕ → Use (Unit {0})
assert_employee_exists e = do found ← gets (find_user e); or_throw found not_found; pure tt

unfoldable pub set_chain :
    Instant → (employee_id : ℕ) → SetChainInput → (actor : Option ℕ) → Use ActiveChain
unfolding assert_given find_active_for_employee compute_step_changes apply_step_changes get_active
set_chain i e input actor = do
  assert_employee_exists e
  assert_given input.l1_approver_id e
  assert_given input.l2_approver_id e
  active ← gets (λ db. find_active_for_employee e db.chains)
  changes ← lift_with unprocessable (compute_step_changes e active input actor)
  write_changes i.now changes actor
  gets (λ db. get_active e db.chains)

unfoldable pub end_step : Instant → (employee s : ℕ) → (actor : Option ℕ) → Use ActiveChain
unfolding find_active_for_employee apply_step_changes get_active
end_step i e s actor = do
  active ← gets (λ db. find_active_for_employee e db.chains)
  row ← or_throw (find (λ r. r.step == s) active) not_found
  throw_if (s == 1 && any (λ r. r.step == 2) active) (unprocessable step)
  apply_step_changes i.now (record { ends = row.id ∷ []; inserts = [] }) actor
  gets (λ db. get_active e db.chains)

unfoldable pub bulk_reassign :
    Instant → (from_approver to_approver : ℕ) → (actor : Option ℕ) → Use BulkReassignResult
unfolding assert_user_active find_active_by_approver reassign_each skipped_employees
    apply_step_changes
bulk_reassign i from_approver to_approver actor = do
  throw_if (from_approver == to_approver) (unprocessable to_approver_id)
  assert_user_active to_approver
  rows ← gets (λ db. find_active_by_approver from_approver db.chains)
  write_changes i.now (reassign_each to_approver actor rows) actor
  pure record {
    reassigned = length (reassign_each to_approver actor rows).inserts;
    skipped = skipped_employees to_approver rows;
  }

unfoldable pub assert_second : Option ℕ → Use (Unit {0})
unfolding assert_user_active
assert_second none = pure tt
assert_second (some a) = assert_user_active a

unfoldable pub bulk_assign :
    Instant → List ℕ → BulkAssignInput → (actor : Option ℕ) → Use BulkAssignResult
unfolding assert_user_active assert_second find_active_for_employees assign_each apply_step_changes
bulk_assign i ids input actor = do
  throw_if (is_empty (unique ids)) (unprocessable employee_ids)
  assert_user_active input.l1_approver_id
  assert_second input.l2_approver_id
  rows ← gets (λ db. find_active_for_employees (unique ids) db.chains)
  assignment ← lift_with unprocessable (assign_each input actor rows (unique ids))
  write_changes i.now assignment.changes actor
  pure record { assigned = assignment.assigned; skipped = assignment.skipped }

-- The rows are those of `getActiveRows`, by step.
unfoldable pub get_active_rows :
    (employee_id : ℕ) → Use (Option ApprovalChain × Option ApprovalChain)
unfolding find_active_for_employee
get_active_rows e = do
  assert_employee_exists e
  active ← gets (λ db. find_active_for_employee e db.chains)
  pure (at_step 1 active, at_step 2 active)
