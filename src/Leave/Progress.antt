-- ===== src/Leave/Progress.antt =====
-- How far the histories of a leave request of leave-requests/domain/leave-request.aggregate.ts go.
use asima_backend.Base.{
  ℕ, suc, ◌≤◌, ◌<◌, inl, inr, Bool, Option, List, [], ◌∷◌, Result, ok, err, Result-cases, arith,
}
use asima_backend.Request.{
  Status, pending_l1, pending_l2, approved, rejected, cancelled, is_override,
}
use asima_backend.Leave.Aggregate.{LeaveError, LeaveRequest}
use asima_backend.Leave.Lifecycle.{
  Command, actor_of, run_command, Edge, advance, single_step, second_step, jump, refuse_l1,
  refuse_l2, withdraw_l1, withdraw_l2, withdraw_approved, run_command-Edge,
}

-- The longest way that is left.
abbrev pub steps_left : Status → ℕ
steps_left pending_l1 = 3
steps_left pending_l2 = 2
steps_left approved = 1
steps_left rejected = 0
steps_left cancelled = 0

steps_left-Edge :
    (l2 : Option ℕ) (overrides : Bool) (s t : Status)
    → Edge l2 overrides s t
    → steps_left t < steps_left s
steps_left-Edge l2 overrides s t (advance _ _) = omega arith
steps_left-Edge l2 overrides s t (single_step _ _) = omega arith
steps_left-Edge l2 overrides s t second_step = omega arith
steps_left-Edge l2 overrides s t (jump _) = omega arith
steps_left-Edge l2 overrides s t refuse_l1 = omega arith
steps_left-Edge l2 overrides s t refuse_l2 = omega arith
steps_left-Edge l2 overrides s t withdraw_l1 = omega arith
steps_left-Edge l2 overrides s t withdraw_l2 = omega arith
steps_left-Edge l2 overrides s t withdraw_approved = omega arith

abbrev counted : Result LeaveError LeaveRequest → (LeaveRequest → ℕ) → ℕ → ℕ
counted (ok r') rest stays = suc (rest r')
counted (err _) rest stays = stays

-- How many of the commands succeed.
unfoldable pub successes : LeaveRequest → List Command → ℕ
successes r [] = 0
successes r (c ∷ cs) = counted (run_command r c) (λ r'. successes r' cs) (successes r cs)

-- However many commands anyone gives, a leave request changes its state three times at most while it
-- waits for its first approver, twice while it waits for the second, once after its approval, and
-- never after a rejection or a cancellation.
pub successes_bounded :
    (r : LeaveRequest) (cs : List Command) → successes r cs ≤ steps_left r.p.status
unfolding successes
successes_bounded r [] = omega arith
successes_bounded r (c ∷ cs) = elim (Result-cases (run_command r c)) [
  | inl (r', done) ↦
      let edge = run_command-Edge r c r' done in
      let fewer =
        steps_left-Edge r.p.l2_approver_id (is_override (actor_of c)) r.p.status r'.p.status edge in
      let rest = successes_bounded r' cs in rw done (omega arith)
  | inr (e, failed) ↦ rw failed (successes_bounded r cs)
]
