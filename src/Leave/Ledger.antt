-- ===== src/Leave/Ledger.antt =====
-- The balances over a whole history of calls: submissions, decisions and grants, in any order.
use asima_backend.Base.{
  ℕ, ◌+◌, ◌≤◌, ◌≡◌, refl, Bool, true, List, [], ◌∷◌, Option, arith, ◌==◌, ◌&&◌, is_none,
  sum_where-update_first,
}
use asima_backend.Request.{Status, is_active_status}
use asima_backend.Db.{Db}
use asima_backend.Leave.Record.{LeaveType, LeaveRequestRecord}
use asima_backend.Leave.Lifecycle.{Command, Edge, run_command-Edge}
use asima_backend.Leave.Repository.{
  find_by_id, is_consumed_by, sum_consumed, sum_used, sum_reserved,
}
use asima_backend.Leave.Decisions.{Decided, fresh}

-- No edge of the diagram leads into an active state from one that is not.
Edge-active : {l2 : Option ℕ} {o : Bool} {s t : Status} → Edge l2 o s t → is_active_status s ≡ true
Edge-active (Edge.advance _ _) = refl
Edge-active (Edge.single_step _ _) = refl
Edge-active Edge.second_step = refl
Edge-active (Edge.jump _) = refl
Edge-active Edge.refuse_l1 = refl
Edge-active Edge.refuse_l2 = refl
Edge-active Edge.withdraw_l1 = refl
Edge-active Edge.withdraw_l2 = refl
Edge-active Edge.withdraw_approved = refl

-- A decision takes no days of any employee or type.
pub Decided-consumed :
    (c : Command) (id : ℕ) (db : Db) (r : LeaveRequestRecord) (db' : Db)
    → Decided c id db r db'
    → (e : ℕ) (t : LeaveType) → sum_consumed e t db'.leaves ≤ sum_consumed e t db.leaves
unfolding sum_consumed find_by_id
Decided-consumed c id db r db' d e t =
    let was_active = Edge-active (run_command-Edge (fresh d.row) c d.done d.ran) in
    let moved =
      sum_where-update_first (λ x. x.id == id && is_none x.deleted_at) (λ _. r) (is_consumed_by e t)
        (λ x. x.working_days) db.leaves d.row d.found in
    rw d.table (ground (arith, d))

-- `available` is what the transaction of `submit` compares with: the used and the reserved days
-- together are the consumed ones.
pub used_reserved :
    (e : ℕ) (t : LeaveType) (rows : List LeaveRequestRecord)
    → sum_used e t rows + sum_reserved e t rows ≡ sum_consumed e t rows
unfolding sum_used sum_reserved sum_consumed
used_reserved e t [] = omega arith
used_reserved e t (r ∷ rows) = ground (arith, used_reserved e t rows)
