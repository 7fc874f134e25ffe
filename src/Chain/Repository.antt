-- ===== src/Chain/Repository.antt =====
-- The reads of approval-chains/persistence/repositories/approval-chain.repository.ts, and
-- `ApprovalChainsService.getActive`. The order by step is the order in which no read here looks.
use asima_backend.Base.{ℕ, ◌==◌, ◌&&◌, is_none, List, Option, none, some, filter, find_last, any}
use asima_backend.Chain.Record.{ApprovalChain, ActiveChain}

unfoldable pub find_active_for_employee : ℕ → List ApprovalChain → List ApprovalChain
find_active_for_employee employee_id =
    filter (λ r. r.employee_id == employee_id && is_none r.ended_at)

unfoldable pub find_active_for_employees : List ℕ → List ApprovalChain → List ApprovalChain
find_active_for_employees employee_ids =
    filter (λ r. any (λ id. id == r.employee_id) employee_ids && is_none r.ended_at)

unfoldable pub find_active_by_approver : ℕ → List ApprovalChain → List ApprovalChain
find_active_by_approver approver_id =
    filter (λ r. r.approver_id == approver_id && is_none r.ended_at)

abbrev pub approver_of : Option ApprovalChain → Option ℕ
approver_of none = none
approver_of (some r) = some r.approver_id

-- `byStep.get(step)`
abbrev pub at_step : ℕ → List ApprovalChain → Option ApprovalChain
at_step step = find_last (λ r. r.step == step)

unfoldable pub get_active : ℕ → List ApprovalChain → ActiveChain
unfolding find_active_for_employee
get_active employee_id chains =
    let active = find_active_for_employee employee_id chains in
    record {
      l1_approver_id = approver_of (at_step 1 active);
      l2_approver_id = approver_of (at_step 2 active);
    }
