-- ===== src/Compensation/Removal.antt =====
-- `softDelete` of compensation/compensation.service.ts, alone and after `create`.
use asima_backend.Base.{
  ℕ, ◌≡◌, refl, ◌⊎◌, inl, inr, true, [], ◌∷◌, ◌++◌, Option, none, some, ok, err, not_found,
  conflict, id_key, arith, Member, find, find-own_key, find-Member, find_sound, is_none, ◌==◌,
  if◌then◌else◌, Option-cases,
}
use asima_backend.Time.{Date}
use asima_backend.Compensation.Record.{CompensationRecord}
use asima_backend.Compensation.Repository.{
  is_row, is_active, find_by_id, find_previous_for_employee,
}
use asima_backend.Compensation.Store.{update_row, delete_row}
use asima_backend.Compensation.Service.{deleted_audit, soft_delete}
use asima_backend.Compensation.Rates.{IsPayroll, rate_on}
use asima_backend.Compensation.SetPay.{IsFigure}
use asima_backend.Compensation.Deletion.{
  delete_rows, after_deletion, delete_rows-IsPayroll, delete_rows-rate_on,
}
use asima_backend.Compensation.Remaining.{prior_cases}
use asima_backend.Db.{Db, Instant}

-- The state after a deletion that succeeds.
unfoldable pub without_row : Instant → Option ℕ → CompensationRecord → Db → Db
unfolding delete_rows
without_row i by c db = record db {
  compensations = delete_rows i.now by c db.compensations;
  audits = db.audits ++ deleted_audit c by ∷ [];
}

module _ (i : Instant) (by : Option ℕ) (db : Db) (h : IsPayroll db.next_id db.compensations) where
  -- A row that a search by id finds and that has no end is the active row of its employee.
  found_active :
      (id : ℕ) (c : CompensationRecord)
      → find_by_id id db.compensations ≡ some c
      → c.effective_to ≡ none
      → (c.id ≡ id)
        × (find (is_row c.id) db.compensations ≡ some c)
        × (is_active c.employee_id c ≡ true)
        × Member c db.compensations
  unfolding find_by_id
  found_active id c found open_end =
      let sound = find_sound (is_row id) db.compensations c found in
      let inside = find-Member (is_row id) db.compensations c found in
      (
        ground arith,
        find-own_key (λ r. r.id) (λ r. is_none r.deleted_at) db.compensations c h.distinct inside
            (ground arith),
        ground arith,
        inside,
      )

  deletes_active :
      (id : ℕ) (c : CompensationRecord)
      → find_by_id id db.compensations ≡ some c
      → c.effective_to ≡ none
      → soft_delete i id by db ≡ (ok tt, without_row i by c db)
  unfolding soft_delete without_row find_by_id update_row delete_row delete_rows
      find_previous_for_employee
  deletes_active id c found open_end =
      let (same_id, by_id, active, inside) = found_active id c found open_end in
      let one =
        (delete_rows-IsPayroll i.now by db.next_id db.compensations h c by_id active
          inside).one_active in
      elim (prior_cases i.now by db.next_id db.compensations h c by_id active inside) [
        | inl (idle, off) ↦ ground arith
        | inr (p, prior, live, there, p_by_id, before, bounds) ↦
            let one_p = one p.employee_id in ground arith
      ]

  pub soft_delete_cases :
      (id : ℕ)
      → ((find_by_id id db.compensations ≡ none) × (soft_delete i id by db ≡ (err not_found, db)))
        ⊎ ((c : CompensationRecord) × (t : Date) × (find_by_id id db.compensations ≡ some c)
            × (c.effective_to ≡ some t)
            × (soft_delete i id by db ≡ (err (conflict id_key), db)))
        ⊎ ((c : CompensationRecord) × (find_by_id id db.compensations ≡ some c)
            × (c.effective_to ≡ none)
            × (soft_delete i id by db ≡ (ok tt, without_row i by c db)))
  unfolding soft_delete
  soft_delete_cases id = elim (Option-cases (find_by_id id db.compensations)) [
    | inl missing ↦ inl (missing, ground arith)
    | inr (c, found) ↦ elim (Option-cases c.effective_to) [
      | inr (t, ended) ↦ inr (inl (c, t, found, ended, ground arith))
      | inl open_end ↦ inr (inr (c, found, open_end, deletes_active id c found open_end))
    ]
  ]

  -- Where the table is in order (`IsPayroll`), `softDelete` of the active row of
  -- an employee succeeds, keeps the table so, and adds one audit row. From the start of the row that
  -- began last before it, the employee is paid by that row, and before that date as before; without
  -- such a row the employee has no pay on any date. Every other employee keeps each figure.
  pub soft_delete_reopens :
      (id : ℕ) (c : CompensationRecord)
      → find_by_id id db.compensations ≡ some c
      → c.effective_to ≡ none
      → let done = soft_delete i id by db in
        (done.0 ≡ ok tt)
        × IsPayroll done.1.next_id done.1.compensations
        × (done.1.audits ≡ db.audits ++ deleted_audit c by ∷ [])
        × ((f : CompensationRecord → ℕ)
            → IsFigure f
            → (e : ℕ) (d : Date)
            → rate_on f e d done.1.compensations ≡ (
                if e == c.employee_id
                then after_deletion
                    (find_previous_for_employee c.employee_id c.effective_from db.compensations)
                    d
                    none
                    (λ p. some (f p))
                    (rate_on f e d db.compensations)
                else rate_on f e d db.compensations))
  unfolding without_row
  soft_delete_reopens id c found open_end =
      let (same_id, by_id, active, inside) = found_active id c found open_end in
      rw (deletes_active id c found open_end) (
        refl,
        delete_rows-IsPayroll i.now by db.next_id db.compensations h c by_id active inside,
        refl,
        delete_rows-rate_on i.now by db.next_id db.compensations h c by_id active inside,
      )
