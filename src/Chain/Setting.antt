-- ===== src/Chain/Setting.antt =====
-- What a change of the steps of one employee makes of the table of approval-chains/.
use asima_backend.Base.{
  ℕ, ◌+◌, ◌≤◌, ◌≡◌, refl, sym, ◌∙◌, ◌⊎◌, inl, inr, Bool, true, false, ◌&&◌, List, [], ◌∷◌, Option,
  none, some, arith, All, Member, Change, keep, clear, put, merge, sum_where, sum_where-only,
  sum_where-idle, ◌==◌, Bool-cases, Option-cases,
}
use asima_backend.Chain.Record.{ApprovalChain}
use asima_backend.Chain.Repository.{find_active_for_employee, approver_of, at_step}
use asima_backend.Chain.Steps.{superseded, inserted}
use asima_backend.Chain.Service.{is_active_at, active_count}
use asima_backend.Chain.Table.{
  IsAssigned, approver_at-counted, total, counted, at_step-some, at_step-none,
}
use asima_backend.Chain.Ending.{is_for}

abbrev pub is_self : Change ℕ → ℕ → Bool
is_self (put a) e = a == e
is_self _ e = false

module _ (n e s : ℕ) (change : Change ℕ) (actor : Option ℕ) (rows : List ApprovalChain)
    (h : IsAssigned n rows) where
  abbrev current : Option ApprovalChain
  current = at_step s (find_active_for_employee e rows)

  -- Every other step.
  pub step_elsewhere :
      (e' s' : ℕ)
      → (e' == e && s' == s) ≡ false
      → (active_count e' s' (superseded change current) ≡ 0)
        × (total e' s' (superseded change current) ≡ 0)
        × (sum_where (is_for e' s') (λ _. 1) (inserted e s change current actor) ≡ 0)
        × (sum_where (is_for e' s') (λ i. i.approver_id) (inserted e s change current actor) ≡ 0)
  step_elsewhere e' s' other = elim (Option-cases current) [
    | inl nothing ↦ ground arith
    | inr (r, found) ↦ let on = at_step-some e s rows r found in ground arith
  ]

  pub superseded-Member :
      All (λ r. (is_active_at e s r ≡ true) × Member r rows) (superseded change current)
  superseded-Member = elim (Option-cases current) [
    | inl nothing ↦ rw nothing (go change none (λ r found. absurd (ground arith)))
    | inr (x, found) ↦
        rw found (go change (some x) (λ r same. at_step-some e s rows r (found ∙ same)))
  ]
    where
      go :
          (c : Change ℕ) (o : Option ApprovalChain)
          → ((r : ApprovalChain) → o ≡ some r → (is_active_at e s r ≡ true) × Member r rows)
          → All (λ r. (is_active_at e s r ≡ true) × Member r rows) (superseded c o)
      go keep o f = tt
      go clear none f = tt
      go clear (some r) f = (f r refl, tt)
      go (put a) none f = tt
      go (put a) (some r) f = elim (Bool-cases (r.approver_id == a)) [
        | inl same ↦ rw same tt
        | inr other ↦ rw other (f r refl, tt)
      ]

-- The step itself: what a change leaves there, `x` rows that name `y`.
pub step_effect :
    (n e s : ℕ) (actor : Option ℕ) (rows : List ApprovalChain) (h : IsAssigned n rows)
    (change : Change ℕ) (now : Option ApprovalChain)
    → at_step s (find_active_for_employee e rows) ≡ now
    → (x y : ℕ) × (active_count e s (superseded change now) + x
        ≡ active_count e s rows + sum_where (is_for e s) (λ _. 1) (inserted e s change now actor))
      × (total e s (superseded change now) + y
          ≡ total e s rows
            + sum_where (is_for e s) (λ i. i.approver_id) (inserted e s change now actor))
      × (x ≤ 1)
      × (counted x y ≡ merge change (approver_of now))
step_effect n e s actor rows h keep now found =
    let one = h.one_each e s in
    let same : approver_of now ≡ counted (active_count e s rows) (total e s rows) =
      rw (sym found) (approver_at-counted e s rows one) in
    (active_count e s rows, total e s rows, omega arith, omega arith, one, sym same)
step_effect n e s actor rows h clear none found =
    let zero = at_step-none e s rows found in
    (
      0,
      0,
      ground arith,
      ground (arith, sum_where-idle (is_active_at e s) (λ r. r.approver_id) rows),
      omega arith,
      refl,
    )
step_effect n e s actor rows h clear (some r) found =
    let (on, inside) = at_step-some e s rows r found in
    let only =
      sum_where-only (is_active_at e s) (λ x. x.approver_id) rows r (h.one_each e s) inside on in
    (0, 0, ground arith, ground arith, omega arith, refl)
step_effect n e s actor rows h (put a) none found =
    let zero = at_step-none e s rows found in
    (
      1,
      a,
      ground arith,
      ground (arith, sum_where-idle (is_active_at e s) (λ r. r.approver_id) rows),
      omega arith,
      refl,
    )
step_effect n e s actor rows h (put a) (some r) found =
    let (on, inside) = at_step-some e s rows r found in
    let only =
      sum_where-only (is_active_at e s) (λ x. x.approver_id) rows r (h.one_each e s) inside on in
    (1, a, ground arith, ground arith, omega arith, refl)

pub superseded-cases :
    (c : Change ℕ) (o : Option ApprovalChain)
    → (superseded c o ≡ []) ⊎ ((r : ApprovalChain) × (superseded c o ≡ r ∷ []))
superseded-cases keep o = inl refl
superseded-cases clear none = inl refl
superseded-cases clear (some r) = inr (r, refl)
superseded-cases (put a) none = inl refl
superseded-cases (put a) (some r) = elim (Bool-cases (r.approver_id == a)) [
  | inl same ↦ inl (ground arith)
  | inr other ↦ inr (r, ground arith)
]
