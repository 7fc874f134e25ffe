-- ===== src/Chain/Table.antt =====
-- The approvers that the active rows of approval-chains/ name.
use asima_backend.Base.{
  ℕ, ◌≤◌, ◌<◌, ◌≡◌, refl, inl, inr, true, false, List, [], ◌∷◌, Option, none, some, arith, All,
  Member, HasDistinct, sum_where, sum_where-idle, ◌==◌, if◌then◌else◌, Bool-cases, Option-cases,
}
use asima_backend.Chain.Record.{ApprovalChain}
use asima_backend.Chain.Repository.{find_active_for_employee, approver_of, at_step}
use asima_backend.Chain.Service.{is_active_at, active_count}

-- One active row at most for each step of an employee, no second step without a first, and nobody
-- approves their own requests.
pub record IsAssigned (next_id : ℕ) (rows : List ApprovalChain) : Type 0 where
  pub one_each : (e s : ℕ) → active_count e s rows ≤ 1
  pub l1_first : (e : ℕ) → active_count e 1 rows ≡ 0 → active_count e 2 rows ≡ 0
  pub others_approve : All (λ r. (r.approver_id == r.employee_id) ≡ false) rows
  pub distinct : HasDistinct (λ r. r.id) rows
  pub numbered : All (λ r. r.id < next_id) rows

abbrev pub approver_at : ℕ → ℕ → List ApprovalChain → Option ℕ
approver_at e s rows = approver_of (at_step s (find_active_for_employee e rows))

abbrev pub total : ℕ → ℕ → List ApprovalChain → ℕ
total e s = sum_where (is_active_at e s) (λ r. r.approver_id)

abbrev pub counted : ℕ → ℕ → Option ℕ
counted n sum = if n == 0 then none else some sum

idle :
    (e s : ℕ) (rows : List ApprovalChain)
    → active_count e s rows ≡ 0
    → at_step s (find_active_for_employee e rows) ≡ none
unfolding find_active_for_employee
idle e s [] h = refl
idle e s (r ∷ rows) h = ground (arith, idle e s rows)

-- Where a step has one active row at most, the order of the rows says nothing.
pub approver_at-counted :
    (e s : ℕ) (rows : List ApprovalChain)
    → active_count e s rows ≤ 1
    → approver_at e s rows ≡ counted (active_count e s rows) (total e s rows)
unfolding find_active_for_employee
approver_at-counted e s [] h = refl
approver_at-counted e s (r ∷ rows) h =
    let none_left = idle e s rows in
    let no_total = sum_where-idle (is_active_at e s) (λ x. x.approver_id) rows in
    let rest = approver_at-counted e s rows in
    elim (Bool-cases (is_active_at e s r)) [
      | inl on ↦ ground arith
      | inr off ↦ elim (Option-cases (at_step s (find_active_for_employee e rows))) [
        | inl nothing ↦ ground arith
        | inr (x, found) ↦ ground arith
      ]
    ]

pub at_step-some :
    (e s : ℕ) (rows : List ApprovalChain) (x : ApprovalChain)
    → at_step s (find_active_for_employee e rows) ≡ some x
    → (is_active_at e s x ≡ true) × Member x rows
unfolding find_active_for_employee
at_step-some e s [] x h = absurd (ground arith)
at_step-some e s (r ∷ rows) x h =
    elim (Option-cases (at_step s (find_active_for_employee e rows))) [
      | inl nothing ↦ let same : r ≡ x = ground arith in (ground arith, inl same)
      | inr (y, found) ↦
          let same : y ≡ x = ground arith in
          let (on, there) = at_step-some e s rows x (ground arith) in (on, inr there)
    ]

pub at_step-none :
    (e s : ℕ) (rows : List ApprovalChain)
    → at_step s (find_active_for_employee e rows) ≡ none
    → active_count e s rows ≡ 0
unfolding find_active_for_employee
at_step-none e s [] h = refl
at_step-none e s (r ∷ rows) h = elim (Option-cases (at_step s (find_active_for_employee e rows))) [
  | inl nothing ↦ ground (arith, at_step-none e s rows nothing)
  | inr (y, found) ↦ absurd (ground arith)
]
