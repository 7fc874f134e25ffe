-- ===== src/Tests/Chains.antt =====
-- Approval chains: runs of the service of approval-chains/, and the theorems at concrete calls.
use asima_backend.Base.{
  ℕ, ◌≡◌, refl, ◌⊎◌, ◌&&◌, not, List, [], ◌∷◌, none, some, ok, err, Field, not_found, unprocessable,
  arith, clear, put, same_option, ◌==◌, if◌then◌else◌,
}
use asima_backend.Chain.{
  SetChainInput, BulkReassignResult, get_active, find_active_for_employee, compute_step_changes,
}
use asima_backend.Chain.Service.{
  set_chain, bulk_reassign, assert_given, assert_user_active, check_active, apply_step_changes,
  insert_all, insert_chain,
}
use asima_backend.Chain.Table.{IsAssigned, approver_at}
use asima_backend.Chain.Requested.{IsRequested, set_chain-IsRequested}
use asima_backend.Chain.Moving.{bulk_reassign-replaces}
use asima_backend.Chain.History.{Call, sets, ends, reassigns, serve_all, serve_all-IsAssigned}
use asima_backend.Db.{Db}
use asima_backend.Tests.Data.{morning, office}

office-IsAssigned : IsAssigned office.next_id office.chains
office-IsAssigned = record {
  one_each = λ e s. ground arith;
  l1_first = λ e none_first. ground arith;
  others_approve = (refl, (refl, tt));
  distinct = (refl, (refl, tt));
  numbered = (omega arith, (omega arith, tt));
}

-- The manager at the first step, and nobody at the second.
abbrev shorter : SetChainInput
shorter = record { l1_approver_id = put 9; l2_approver_id = clear }

set_chain-IsRequested_example :
    (set_chain morning 7 shorter (some 9) office ≡ (err not_found, office))
    ⊎ ((f : Field) × (set_chain morning 7 shorter (some 9) office
          ≡ (err (unprocessable f), office)))
    ⊎ ((db' : Db) × (set_chain morning 7 shorter (some 9) office
          ≡ (ok (get_active 7 db'.chains), db'))
        × IsRequested 7 shorter office db')
set_chain-IsRequested_example =
    set_chain-IsRequested morning 7 shorter (some 9) office office-IsAssigned

-- The call succeeds.
shorter_set :
    (set_chain morning 7 shorter (some 9) office).0
    ≡ ok (record { l1_approver_id = some 9; l2_approver_id = none })
unfolding set_chain assert_given assert_user_active check_active find_active_for_employee
    compute_step_changes apply_step_changes insert_all insert_chain get_active
shorter_set = refl

bulk_reassign-replaces_example :
    ((f : Field) × (bulk_reassign morning 8 9 (some 9) office ≡ (err (unprocessable f), office)))
    ⊎ ((result : BulkReassignResult) × (db' : Db) × (bulk_reassign morning 8 9 (some 9) office
          ≡ (ok result, db'))
        × IsAssigned db'.next_id db'.chains
        × ((e s : ℕ)
            → approver_at e s db'.chains ≡ (
                if same_option (approver_at e s office.chains) (some 8) && not (e == 9)
                then some 9
                else approver_at e s office.chains)))
bulk_reassign-replaces_example =
    bulk_reassign-replaces morning 8 9 (some 9) office office-IsAssigned

abbrev calls : List Call
calls =
    ends morning 7 1 (some 9)
    ∷ reassigns morning 8 9 (some 9)
    ∷ ends morning 7 2 (some 9)
    ∷ sets morning 7 shorter (some 9)
    ∷ []

serve_all-IsAssigned_example :
    IsAssigned (serve_all office calls).next_id (serve_all office calls).chains
serve_all-IsAssigned_example = serve_all-IsAssigned office calls office-IsAssigned
