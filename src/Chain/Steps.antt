-- ===== src/Chain/Steps.antt =====
-- `ApprovalChainsService.computeStepChanges`, and the loops of the bulk operations of
-- approval-chains/approval-chains.service.ts that collect the writes.
use asima_backend.Base.{
  ℕ, suc, Bool, false, ◌&&◌, ◌||◌, not, List, [], ◌∷◌, ◌++◌, map, Option, none, some, Result, ok,
  err, Field, l1_approver_id, Change, keep, clear, put, merge, filter, is_none, is_some, is_empty,
  ◌==◌, if◌then◌else◌,
}
use asima_backend.Chain.Record.{
  ApprovalChain, SetChainInput, ChainInsert, StepChanges, BulkAssignInput,
}
use asima_backend.Chain.Repository.{approver_of, at_step}

abbrev pub no_changes : StepChanges
no_changes = record { ends = []; inserts = [] }

abbrev pub also : StepChanges → StepChanges → StepChanges
also a b = record { ends = a.ends ++ b.ends; inserts = a.inserts ++ b.inserts }

abbrev pub is_change : StepChanges → Bool
is_change c = not (is_empty c.ends) || not (is_empty c.inserts)

-- The current row of a step that a change of the step ends.
abbrev pub superseded : Change ℕ → Option ApprovalChain → List ApprovalChain
superseded keep current = []
superseded change none = []
superseded clear (some r) = r ∷ []
superseded (put a) (some r) = if r.approver_id == a then [] else r ∷ []

abbrev pub inserted :
    (employee_id step : ℕ) → Change ℕ → Option ApprovalChain → Option ℕ → List ChainInsert
inserted e step keep current actor = []
inserted e step clear current actor = []
inserted e step (put a) current actor =
    let row : ChainInsert = record {
      employee_id = e;
      step = step;
      approver_id = a;
      created_by = actor;
    } in
    elim current [ none ↦ row ∷ [] | some r ↦ if r.approver_id == a then [] else row ∷ [] ]

abbrev pub ids_of : List ApprovalChain → List ℕ
ids_of = map (λ r. r.id)

abbrev pub step_change :
    (employee_id step : ℕ) → Change ℕ → Option ApprovalChain → Option ℕ → StepChanges
step_change e step change current actor = record {
  ends = ids_of (superseded change current);
  inserts = inserted e step change current actor;
}

abbrev pub resulting : (step : ℕ) → Change ℕ → List ApprovalChain → Option ℕ
resulting step change current_rows = merge change (approver_of (at_step step current_rows))

unfoldable pub compute_step_changes :
    (employee_id : ℕ) → List ApprovalChain → SetChainInput → Option ℕ → Result Field StepChanges
compute_step_changes e current_rows input actor =
    if is_some (resulting 2 input.l2_approver_id current_rows)
      && is_none (resulting 1 input.l1_approver_id current_rows)
    then err l1_approver_id
    else ok (
        also (step_change e 1 input.l1_approver_id (at_step 1 current_rows) actor)
          (step_change e 2 input.l2_approver_id (at_step 2 current_rows) actor))

-- The loop of `bulkReassign` over the active rows of the old approver.
abbrev pub is_moved : (to_approver : ℕ) → ApprovalChain → Bool
is_moved to_approver r = not (r.employee_id == to_approver)

abbrev pub moved : (to_approver : ℕ) → Option ℕ → ApprovalChain → ChainInsert
moved to_approver actor r = record {
  employee_id = r.employee_id;
  step = r.step;
  approver_id = to_approver;
  created_by = actor;
}

unfoldable pub reassign_each : (to_approver : ℕ) → Option ℕ → List ApprovalChain → StepChanges
reassign_each to_approver actor [] = no_changes
reassign_each to_approver actor (r ∷ rows) =
    let rest = reassign_each to_approver actor rows in
    if is_moved to_approver r
    then record { ends = r.id ∷ rest.ends; inserts = moved to_approver actor r ∷ rest.inserts }
    else rest

unfoldable pub skipped_employees : (to_approver : ℕ) → List ApprovalChain → List ℕ
skipped_employees to_approver [] = []
skipped_employees to_approver (r ∷ rows) =
    let rest = skipped_employees to_approver rows in
    if is_moved to_approver r then rest else r.employee_id ∷ rest

-- `[...new Set(ids)]`: the first of each.
abbrev pub unique : List ℕ → List ℕ
unique [] = []
unique (x ∷ xs) = x ∷ filter (λ y. not (y == x)) (unique xs)

abbrev pub as_set_chain : BulkAssignInput → SetChainInput
as_set_chain input = record {
  l1_approver_id = put input.l1_approver_id;
  l2_approver_id = let l2 = input.l2_approver_id in elim l2 [ none ↦ keep | some a ↦ put a ];
}

abbrev pub is_chosen : BulkAssignInput → ℕ → Bool
is_chosen input e =
    e == input.l1_approver_id
    || (let l2 = input.l2_approver_id in elim l2 [ none ↦ false | some a ↦ e == a ])

pub record Assignment : Type 0 where
  pub changes : StepChanges
  pub assigned : ℕ
  pub skipped : List ℕ

abbrev add_employee : StepChanges → Assignment → Assignment
add_employee change rest =
    if is_change change
    then record {
      changes = also change rest.changes;
      assigned = suc rest.assigned;
      skipped = rest.skipped;
    }
    else rest

-- The loop of `bulkAssign`; `rows` are the active rows of the employees.
unfoldable pub assign_each :
    BulkAssignInput → Option ℕ → List ApprovalChain → List ℕ → Result Field Assignment
unfolding compute_step_changes
assign_each input actor rows [] = ok record { changes = no_changes; assigned = 0; skipped = [] }
assign_each input actor rows (e ∷ ids) =
    let rest = assign_each input actor rows ids in
    let change =
      compute_step_changes e (filter (λ r. r.employee_id == e) rows) (as_set_chain input) actor in
    if is_chosen input e
    then elim rest [ err f ↦ err f | ok a ↦ ok (record a { skipped = e ∷ a.skipped }) ]
    else elim change [
      | err f ↦ err f
      | ok c ↦ elim rest [ err f ↦ err f | ok a ↦ ok (add_employee c a) ]
    ]
