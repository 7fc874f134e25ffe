-- ===== src/Leave/Lifecycle.antt =====
-- The two-step approval of a leave request as a state machine: which transitions the behaviours of
-- the aggregate make, what they leave alone, and what a whole history of calls can reach.
use asima_backend.Base.{
  ℕ, ◌≡◌, refl, ◌≢◌, ◌⊎◌, inl, inr, Bool, true, false, not, Option, none, some, List, [], ◌∷◌,
  Result, ok, err, ◌==◌, &&-eq-true, any, every, arith,
}
use asima_backend.Time.{Date}
use asima_backend.Request.{
  Status, pending_l1, pending_l2, approved, rejected, cancelled, Actor, is_override, Text,
}
use asima_backend.Leave.Record.{LeaveRequestRecord}
use asima_backend.Leave.Aggregate.{
  LeaveError, LeaveRequest, assert_approvable, apply_approval, reject, cancel,
}

-- The calls that change the state of a request, with the instants that the use-case feeds in.
pub data Command : Type 0 where
  approve_by : (now : ℕ) → Actor → Command
  reject_by : (now : ℕ) → Actor → Text → Command
  cancel_by : (now : ℕ) (today : Date) → Actor → Command

abbrev approved_result :
    (now : ℕ) → LeaveRequest → Actor → Result LeaveError (Unit {0}) → Result LeaveError LeaveRequest
approved_result now r a (ok _) = ok (apply_approval now r a)
approved_result now r a (err e) = err e

-- `approve` of the use-case asserts and then applies; the other two are one call each.
unfoldable pub run_command : LeaveRequest → Command → Result LeaveError LeaveRequest
run_command r (approve_by now a) = approved_result now r a (assert_approvable r a)
run_command r (reject_by now a note) = reject now r a note
run_command r (cancel_by now today a) = cancel now today r a

abbrev pub actor_of : Command → Actor
actor_of (approve_by _ a) = a
actor_of (reject_by _ a _) = a
actor_of (cancel_by _ _ a) = a

-- The diagram of the constants file, for a request with the given L2 snapshot and a caller who may
-- or may not override.
pub data Edge (l2 : Option ℕ) (overrides : Bool) : Status → Status → Type 0 where
  advance : {b : ℕ} → l2 ≡ some b → overrides ≡ false → Edge l2 overrides pending_l1 pending_l2
  single_step : l2 ≡ none → overrides ≡ false → Edge l2 overrides pending_l1 approved
  second_step : Edge l2 overrides pending_l2 approved
  jump : overrides ≡ true → Edge l2 overrides pending_l1 approved
  refuse_l1 : Edge l2 overrides pending_l1 rejected
  refuse_l2 : Edge l2 overrides pending_l2 rejected
  withdraw_l1 : Edge l2 overrides pending_l1 cancelled
  withdraw_l2 : Edge l2 overrides pending_l2 cancelled
  withdraw_approved : Edge l2 overrides approved cancelled

ruleset edges = (
  advance, single_step, second_step, jump, refuse_l1, refuse_l2, withdraw_l1, withdraw_l2,
  withdraw_approved,
)

pub run_command-Edge :
    (r : LeaveRequest) (c : Command) (r' : LeaveRequest)
    → run_command r c ≡ ok r'
    → Edge r.p.l2_approver_id (is_override (actor_of c)) r.p.status r'.p.status
unfolding run_command assert_approvable apply_approval reject cancel
run_command-Edge r (approve_by now a) r' h = grind (arith, edges)
run_command-Edge r (reject_by now a note) r' h = grind (arith, edges)
run_command-Edge r (cancel_by now today a) r' h = grind (arith, edges)

-- The columns that no behaviour may touch.
pub record SameRequest (p q : LeaveRequestRecord) : Type 0 where
  pub same_id : q.id ≡ p.id
  pub same_employee : q.employee_id ≡ p.employee_id
  pub same_start : q.start_date ≡ p.start_date
  pub same_end : q.end_date ≡ p.end_date
  pub same_days : q.working_days ≡ p.working_days
  pub same_l1 : q.l1_approver_id ≡ p.l1_approver_id
  pub same_l2 : q.l2_approver_id ≡ p.l2_approver_id

-- A history of calls; one that throws leaves the request as it was.
abbrev kept : LeaveRequest → Result LeaveError LeaveRequest → LeaveRequest
kept r (ok r') = r'
kept r (err _) = r

unfoldable pub run : LeaveRequest → List Command → LeaveRequest
run r [] = r
run r (c ∷ cs) = run (kept r (run_command r c)) cs

-- No command changes a rejected or cancelled request.
run_command-closed :
    (r : LeaveRequest) (c : Command)
    → (r.p.status ≡ rejected) ⊎ (r.p.status ≡ cancelled)
    → kept r (run_command r c) ≡ r
unfolding run_command assert_approvable reject cancel
run_command-closed r (approve_by now a) h = ground arith
run_command-closed r (reject_by now a note) h = ground arith
run_command-closed r (cancel_by now today a) h = ground arith

-- Rejected and cancelled are final: no history of calls, by anyone, changes such a request.
pub run-closed :
    (r : LeaveRequest) (cs : List Command)
    → (r.p.status ≡ rejected) ⊎ (r.p.status ≡ cancelled)
    → run r cs ≡ r
unfolding run
run-closed r [] h = refl
run-closed r (c ∷ cs) h = rw (run_command-closed r c h) (run-closed r cs h)

-- The command is an approval by the user `u`.
abbrev pub approval_by : ℕ → Command → Bool
approval_by u (approve_by _ a) = a.user_id == u
approval_by u _ = false

-- The chain path: nobody in the history holds an override.
abbrev pub on_chain : Command → Bool
on_chain c = not (is_override (actor_of c))

step_from_l2 :
    (r : LeaveRequest) (c : Command) (b : ℕ)
    → r.p.status ≡ pending_l2
    → r.p.l2_approver_id ≡ some b
    → on_chain c ≡ true
    → let r' = kept r (run_command r c) in
      (approval_by b c ≡ true) ⊎ ((r' ≡ r) ⊎ ((r'.p.status ≡ rejected) ⊎ (r'.p.status ≡ cancelled)))
unfolding run_command assert_approvable apply_approval reject cancel
step_from_l2 r (approve_by now a) b s l2 o = ground arith
step_from_l2 r (reject_by now a note) b s l2 o = ground arith
step_from_l2 r (cancel_by now today a) b s l2 o = ground arith

run_closed-ne-approved :
    (r : LeaveRequest) (cs : List Command)
    → (r.p.status ≡ rejected) ⊎ (r.p.status ≡ cancelled)
    → (run r cs).p.status ≢ approved
run_closed-ne-approved r cs h = ground (arith, run-closed r cs h)

-- A request that waits for L2 and ends approved was approved by its L2 approver.
run_from_l2 :
    (r : LeaveRequest) (cs : List Command) (b : ℕ)
    → r.p.status ≡ pending_l2
    → r.p.l2_approver_id ≡ some b
    → every on_chain cs ≡ true
    → (run r cs).p.status ≡ approved
    → any (approval_by b) cs ≡ true
unfolding run
run_from_l2 r [] b s l2 o h = cc
run_from_l2 r (c ∷ cs) b s l2 o h =
    let (first, later) = &&-eq-true (on_chain c) (every on_chain cs) o in
    elim (step_from_l2 r c b s l2 first) [
      | inl signed ↦ rw signed
      | inr (inl same) ↦ ground (arith, same, run_from_l2 r cs b s l2 later)
      | inr (inr closed) ↦ absurd (run_closed-ne-approved _ cs closed h)
    ]

step_from_l1 :
    (r : LeaveRequest) (c : Command) (b : ℕ)
    → r.p.status ≡ pending_l1
    → r.p.l2_approver_id ≡ some b
    → on_chain c ≡ true
    → let r' = kept r (run_command r c) in
      ((approval_by r.p.l1_approver_id c ≡ true)
        × (r'.p.status ≡ pending_l2)
        × (r'.p.l2_approver_id ≡ some b))
      ⊎ ((r' ≡ r) ⊎ ((r'.p.status ≡ rejected) ⊎ (r'.p.status ≡ cancelled)))
unfolding run_command assert_approvable apply_approval reject cancel
step_from_l1 r (approve_by now a) b s l2 o = ground arith
step_from_l1 r (reject_by now a note) b s l2 o = ground arith
step_from_l1 r (cancel_by now today a) b s l2 o = ground arith

-- With an L2 approver snapshotted and no override in the history, a request that was submitted and
-- is approved carries both signatures: an approval by its L1 approver and one by its L2 approver.
pub run_two_signatures :
    (r : LeaveRequest) (cs : List Command) (b : ℕ)
    → r.p.status ≡ pending_l1
    → r.p.l2_approver_id ≡ some b
    → every on_chain cs ≡ true
    → (run r cs).p.status ≡ approved
    → (any (approval_by r.p.l1_approver_id) cs ≡ true) × (any (approval_by b) cs ≡ true)
unfolding run
run_two_signatures r [] b s l2 o h = cc
run_two_signatures r (c ∷ cs) b s l2 o h =
    let (first, later) = &&-eq-true (on_chain c) (every on_chain cs) o in
    elim (step_from_l1 r c b s l2 first) [
      | inl moved ↦ ground (arith, run_from_l2 (kept r (run_command r c)) cs b)
      | inr (inl same) ↦ ground (arith, same, run_two_signatures r cs b s l2 later)
      | inr (inr closed) ↦ absurd (run_closed-ne-approved _ cs closed h)
    ]
