-- ===== src/Compensation/Deletion.antt =====
-- What `softDelete` of compensation/compensation.service.ts makes of the rates of an employee.
use asima_backend.Base.{
  ℕ, ◌≤◌, ◌<◌, ◌≡◌, refl, inl, inr, true, false, ◌&&◌, List, Option, none, some, arith, All,
  All-Member, All-update_first, Member, HasDistinct, HasDistinct-update_first, find, sum_where,
  sum_where-Member, sum_where-none, sum_where-update_first, update_first, leb, ◌==◌, if◌then◌else◌,
  Bool-cases,
}
use asima_backend.Time.{Date}
use asima_backend.Compensation.Record.{CompensationRecord}
use asima_backend.Compensation.Repository.{
  is_row, is_live, is_active, in_effect, starts_before, find_previous_for_employee,
}
use asima_backend.Compensation.Store.{active_count, is_backwards, patched, removed}
use asima_backend.Compensation.Service.{reopening}
use asima_backend.Compensation.Rates.{
  rate_count, live_count, IsPayroll, rate_on, rate_on-counted, no_sum, none_live,
  latest-update_first,
}
use asima_backend.Compensation.SetPay.{IsFigure}
use asima_backend.Compensation.Remaining.{without, rest_sums, prior_cases, third_empty}

-- The rows after a deletion: the predecessor, if any, is active again.
unfoldable pub delete_rows :
    (now : ℕ) → Option ℕ → CompensationRecord → List CompensationRecord → List CompensationRecord
unfolding find_previous_for_employee
delete_rows now by c rows =
    let rest = without now by c.id rows in
    elim (find_previous_for_employee c.employee_id c.effective_from rest) [
      | none ↦ rest
      | some p ↦ update_first (is_row p.id) (patched (reopening by)) rest
    ]

-- The figure on a date where `p` was reopened.
abbrev pub after_deletion :
    {A : Type 0} → Option CompensationRecord → Date → A → (CompensationRecord → A) → A → A
after_deletion none d nothing value before = nothing
after_deletion (some p) d nothing value before = if leb p.effective_from d then value p else before

module _ (now : ℕ) (by : Option ℕ) (n : ℕ) (rows : List CompensationRecord) (h : IsPayroll n rows)
    (c : CompensationRecord) (by_id : find (is_row c.id) rows ≡ some c)
    (active : is_active c.employee_id c ≡ true) (inside : Member c rows) where
  abbrev predecessor : Option CompensationRecord
  predecessor = find_previous_for_employee c.employee_id c.effective_from rows

  pub same_predecessor :
      find_previous_for_employee c.employee_id c.effective_from (without now by c.id rows)
      ≡ predecessor
  unfolding find_previous_for_employee
  same_predecessor =
      latest-update_first (starts_before c.employee_id c.effective_from) (is_row c.id)
        (removed now by) rows c by_id (ground arith) (ground arith)

  delete_effect :
      (f : CompensationRecord → ℕ)
      → IsFigure f
      → (e : ℕ) (d : Date)
      → (rate_count e d (delete_rows now by c rows) ≡ (
          if e == c.employee_id
          then after_deletion predecessor d 0 (λ _. 1) (rate_count e d rows)
          else rate_count e d rows))
        × (sum_where (in_effect e d) f (delete_rows now by c rows) ≡ (
            if e == c.employee_id
            then after_deletion predecessor d 0 f (sum_where (in_effect e d) f rows)
            else sum_where (in_effect e d) f rows))
  unfolding delete_rows
  delete_effect f fig e d =
      let counts =
        rest_sums now by n rows h c by_id active inside (in_effect e d) (λ _. 1) (ground arith) in
      let figures =
        rest_sums now by n rows h c by_id active inside (in_effect e d) f (ground arith) in
      let same = same_predecessor in
      elim (prior_cases now by n rows h c by_id active inside) [
        | inl (idle, off) ↦
            let off_d =
              sum_where-none (is_live c.employee_id) (λ _. 1) (without now by c.id rows) off in
            let zero = none_live c.employee_id d f (without now by c.id rows) off_d in ground arith
        | inr (p, found, live, there, p_by_id, before, bounds) ↦
            let table = without now by c.id rows in
            let reopen = patched (reopening by) in
            let moved = sum_where-update_first (is_row p.id) reopen (in_effect e d) in
            let more_counts = moved (λ _. 1) table p p_by_id in
            let more_figures = moved f table p p_by_id in
            let figure = fig p none (reopen p).updated_by in
            elim (Bool-cases (e == c.employee_id && leb p.effective_from d)) [
              | inr untouched ↦ ground arith
              | inl started ↦
                  let empty =
                    third_empty now by n rows h c by_id active inside p d p_by_id live there bounds
                      (ground arith) in
                  let lost =
                    sum_where-update_first (is_row p.id) (removed now by) (in_effect e d) in
                  let less_counts = lost (λ _. 1) table p p_by_id in
                  let less_figures = lost f table p p_by_id in
                  let none_left =
                    no_sum (in_effect c.employee_id d) f (without now by p.id table) empty in
                  ground arith
            ]
      ]

  delete_actives :
      (e : ℕ)
      → (active_count e (delete_rows now by c rows) ≤ 1)
        × (active_count e (delete_rows now by c rows) ≡ 0
            → live_count e (delete_rows now by c rows) ≡ 0)
  unfolding delete_rows
  delete_actives e =
      let table = without now by c.id rows in
      let counts =
        rest_sums now by n rows h c by_id active inside (is_active e) (λ _. 1) (ground arith) in
      let lives =
        rest_sums now by n rows h c by_id active inside (is_live e) (λ _. 1) (ground arith) in
      let one = h.one_active e in
      let any_active = h.active_if_any e in
      elim (prior_cases now by n rows h c by_id active inside) [
        | inl (idle, off) ↦
            let zero = sum_where-none (is_live c.employee_id) (λ _. 1) table off in
            (ground arith, λ none_now. ground arith)
        | inr (p, found, live, there, p_by_id, before, bounds) ↦
            let reopen = patched (reopening by) in
            let more_actives =
              sum_where-update_first (is_row p.id) reopen (is_active e) (λ _. 1) table p p_by_id in
            let itself = sum_where-Member (is_active e) (λ _. 1) table p there in
            let more_lives =
              sum_where-update_first (is_row p.id) reopen (is_live e) (λ _. 1) table p p_by_id in
            (ground arith, λ none_now. ground arith)
      ]

  delete-All :
      (P : CompensationRecord → Type 0)
      → All P rows
      → ((r : CompensationRecord) → P r → P (removed now by r))
      → ((r : CompensationRecord) → P r → P (patched (reopening by) r))
      → All P (delete_rows now by c rows)
  unfolding delete_rows
  delete-All P a removes reopens =
      let kept =
        All-update_first P (is_row c.id) (removed now by) rows c by_id a
          (removes c (All-Member P rows c a inside)) in
      elim (prior_cases now by n rows h c by_id active inside) [
        | inl (idle, off) ↦
            let shape : delete_rows now by c rows ≡ without now by c.id rows = ground arith in
            rw shape kept
        | inr (p, found, live, there, p_by_id, before, bounds) ↦
            let shape : delete_rows now by c rows
                ≡ update_first (is_row p.id) (patched (reopening by)) (without now by c.id rows) =
              ground arith in
            rw shape (
              All-update_first P (is_row p.id) (patched (reopening by)) (without now by c.id rows) p
                p_by_id kept (reopens p (All-Member P (without now by c.id rows) p kept there)))
      ]

  delete_distinct : HasDistinct (λ r. r.id) (delete_rows now by c rows)
  unfolding delete_rows
  delete_distinct =
      let kept =
        HasDistinct-update_first (λ r. r.id) (is_row c.id) (removed now by) rows (λ r. refl)
          h.distinct in
      elim (prior_cases now by n rows h c by_id active inside) [
        | inl (idle, off) ↦
            let shape : delete_rows now by c rows ≡ without now by c.id rows = ground arith in
            rw shape kept
        | inr (p, found, live, there, p_by_id, before, bounds) ↦
            let shape : delete_rows now by c rows
                ≡ update_first (is_row p.id) (patched (reopening by)) (without now by c.id rows) =
              ground arith in
            rw shape (
              HasDistinct-update_first (λ r. r.id) (is_row p.id) (patched (reopening by))
                (without now by c.id rows) (λ r. refl) kept)
      ]

  pub delete_rows-IsPayroll : IsPayroll n (delete_rows now by c rows)
  delete_rows-IsPayroll = record {
    one_rate = λ e d.
        let one = h.one_rate e d in
        let effect = delete_effect (λ _. 1) (λ r to editor. refl) e d in ground arith;
    one_active = λ e. (delete_actives e).0;
    active_if_any = λ e. (delete_actives e).1;
    forwards =
        delete-All (λ r. is_backwards r ≡ false) h.forwards (λ r forward. forward) (λ r _. refl);
    distinct = delete_distinct;
    numbered = delete-All (λ r. r.id < n) h.numbered (λ r low. low) (λ r low. low);
  }

  -- The pay of every employee on every date after the deletion.
  pub delete_rows-rate_on :
      (f : CompensationRecord → ℕ)
      → IsFigure f
      → (e : ℕ) (d : Date)
      → rate_on f e d (delete_rows now by c rows) ≡ (
          if e == c.employee_id
          then after_deletion predecessor d none (λ p. some (f p)) (rate_on f e d rows)
          else rate_on f e d rows)
  delete_rows-rate_on f fig e d =
      let (counts, figures) = delete_effect f fig e d in
      let before = rate_on-counted f e d n rows h in
      let later = rate_on-counted f e d n (delete_rows now by c rows) delete_rows-IsPayroll in
      rw later (rw before (ground arith))
