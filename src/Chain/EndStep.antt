-- ===== src/Chain/EndStep.antt =====
-- `endStep` of approval-chains/approval-chains.service.ts.
use asima_backend.Base.{
  ℕ, ◌≡◌, refl, sym, ◌⊎◌, inl, inr, true, false, ◌&&◌, List, [], ◌∷◌, Option, none, some, ok, err,
  Field, not_found, unprocessable, step, arith, Member, any, find, sum_where-only, ◌==◌,
  if◌then◌else◌, Bool-cases, Option-cases,
}
use asima_backend.Chain.Record.{ApprovalChain, StepChanges}
use asima_backend.Chain.Repository.{find_active_for_employee, get_active}
use asima_backend.Chain.Service.{is_active_at, active_count, apply_step_changes, end_step}
use asima_backend.Chain.Table.{IsAssigned, approver_at, approver_at-counted, total}
use asima_backend.Chain.Ending.{with_changes, changed_counts, apply_call}
use asima_backend.Db.{Db, Instant}

find_step :
    (e s : ℕ) (rows : List ApprovalChain) (x : ApprovalChain)
    → find (λ r. r.step == s) (find_active_for_employee e rows) ≡ some x
    → (is_active_at e s x ≡ true) × Member x rows
unfolding find_active_for_employee
find_step e s [] x h = absurd (ground arith)
find_step e s (r ∷ rows) x h = elim (Bool-cases (is_active_at e s r)) [
  | inl on ↦ let same : r ≡ x = ground arith in (rw (sym same) on, inl same)
  | inr off ↦ let (on, there) = find_step e s rows x (ground arith) in (on, inr there)
]

no_second :
    (e : ℕ) (rows : List ApprovalChain)
    → any (λ r. r.step == 2) (find_active_for_employee e rows) ≡ false
    → active_count e 2 rows ≡ 0
unfolding find_active_for_employee
no_second e [] h = refl
no_second e (r ∷ rows) h = ground (arith, no_second e rows)

module _ (i : Instant) (e s : ℕ) (actor : Option ℕ) (db : Db)
    (h : IsAssigned db.next_id db.chains) where
  abbrev ending : ApprovalChain → StepChanges
  ending r = record { ends = r.id ∷ []; inserts = [] }

  abbrev after : ApprovalChain → Db
  after r = with_changes i.now (ending r) actor db

  module _ (r : ApprovalChain) (on : is_active_at e s r ≡ true) (there : Member r db.chains) where
    ended_counts :
        (e' s' : ℕ)
        → (active_count e' s' (after r).chains
            ≡ (if e' == e && s' == s then 0 else active_count e' s' db.chains))
          × (total e' s' (after r).chains
              ≡ (if e' == e && s' == s then 0 else total e' s' db.chains))
    ended_counts e' s' =
        let (counts, totals) =
          changed_counts i.now (ending r) actor db h (r ∷ []) refl (there, tt) (refl, tt) e' s' in
        let only =
          sum_where-only (is_active_at e' s') (λ x. x.approver_id) db.chains r (h.one_each e' s')
            there in
        (ground arith, ground arith)

    ended_approvers :
        (e' s' : ℕ)
        → approver_at e' s' (after r).chains
          ≡ (if e' == e && s' == s then none else approver_at e' s' db.chains)
    ended_approvers e' s' =
        let (count, sum) = ended_counts e' s' in
        let one = h.one_each e' s' in
        let before = approver_at-counted e' s' db.chains one in
        let later = approver_at-counted e' s' (after r).chains (ground arith) in ground arith

    ends :
        (s == 1 && any (λ x. x.step == 2) (find_active_for_employee e db.chains)) ≡ false
        → (apply_step_changes i.now (ending r) actor db ≡ (ok tt, after r))
          × IsAssigned (after r).next_id (after r).chains
    ends allowed =
        apply_call i.now (ending r) actor db h
          (λ e' s'.
            let one = h.one_each e' s' in let (count, sum) = ended_counts e' s' in ground arith)
          (λ e' none_first.
            let first = h.l1_first e' in
            let second = no_second e db.chains in
            let (count1, sum1) = ended_counts e' 1 in
            let (count2, sum2) = ended_counts e' 2 in
            elim (Bool-cases (e' == e)) [
              | inr other ↦ ground (arith, first)
              | inl here ↦
                  let own : e' ≡ e = ground arith in
                  elim (Bool-cases (s == 1)) [
                    | inl one ↦
                        let zero : active_count e' 2 db.chains ≡ 0 =
                          rw own (second (ground arith)) in
                        ground arith
                    | inr later ↦ ground (arith, first)
                  ]
            ])
          tt

  -- Where the chains are in order (`IsAssigned`), `endStep` empties the step, leaves every other step of every
  -- employee, keeps the chains in order, and returns the active chain; or it answers 404 or 422 and
  -- changes nothing.
  pub end_step-empties :
      (end_step i e s actor db ≡ (err not_found, db))
      ⊎ ((f : Field) × (end_step i e s actor db ≡ (err (unprocessable f), db)))
      ⊎ ((db' : Db) × (end_step i e s actor db ≡ (ok (get_active e db'.chains), db'))
          × IsAssigned db'.next_id db'.chains
          × ((e' s' : ℕ)
              → approver_at e' s' db'.chains
                ≡ (if e' == e && s' == s then none else approver_at e' s' db.chains)))
  unfolding end_step
  end_step-empties =
      elim (Option-cases (find (λ r. r.step == s) (find_active_for_employee e db.chains))) [
        | inl missing ↦ inl (ground arith)
        | inr (r, found) ↦
            let (on, there) = find_step e s db.chains r found in
            elim (Bool-cases
              (s == 1 && any (λ x. x.step == 2) (find_active_for_employee e db.chains))) [
                | inl orphans ↦ inr (inl (step, ground arith))
                | inr allowed ↦
                    let (call, whole) = ends r on there allowed in
                    inr (inr (after r, ground arith, whole, ended_approvers r on there))
              ]
      ]
