-- ===== src/Compensation/Undo.antt =====
-- `softDelete` of compensation/compensation.service.ts right after `create`.
use asima_backend.Base.{
  ℕ, ◌+◌, ◌≤◌, ◌≡◌, refl, sym, ◌∙◌, inl, inr, true, false, List, Option, none, some, ok, arith,
  All-Member, find-own_key, leb, is_none, ◌==◌, if◌then◌else◌, Bool-cases,
}
use asima_backend.Time.{Date}
use asima_backend.Compensation.Record.{CompensationRecord}
use asima_backend.Compensation.Money.{PayRate, from_input}
use asima_backend.Compensation.Repository.{starts_before, find_by_id, find_previous_for_employee}
use asima_backend.Compensation.Store.{is_backwards}
use asima_backend.Compensation.Service.{SetPayInput, create, soft_delete}
use asima_backend.Compensation.Rates.{
  IsPayroll, rate_on, latest-Member, latest_holds, latest-none, latest_starts_last, rate_of_Member,
}
use asima_backend.Compensation.SetPay.{
  IsFigure, set_rows, starts_after_prior, set_rows-IsPayroll, set_rows-rate_on, set_rows-Member,
  prior_kept, ended,
}
use asima_backend.Compensation.Creation.{new_row, with_pay, create_call}
use asima_backend.Compensation.Deletion.{after_deletion}
use asima_backend.Compensation.Removal.{soft_delete_reopens}
use asima_backend.Db.{Db, Instant}

module _ (actor : Option ℕ) (new : CompensationRecord) (n : ℕ) (rows : List CompensationRecord)
    (h : IsPayroll n rows) (own : new.id ≡ n) (stays : new.deleted_at ≡ none)
    (open_end : new.effective_to ≡ none)
    (after : starts_after_prior new.employee_id new.effective_from rows ≡ true)
    (f : CompensationRecord → ℕ) (fig : IsFigure f) (d : Date) where
  abbrev paid : List CompensationRecord
  paid = set_rows actor new rows

  -- What a deletion of the new row would make of the pay is what it was before.
  undone :
      (prior : Option CompensationRecord)
      → find_previous_for_employee new.employee_id new.effective_from paid ≡ prior
      → after_deletion prior d none (λ p. some (f p)) (rate_on f new.employee_id d paid)
        ≡ rate_on f new.employee_id d rows
  unfolding find_previous_for_employee
  undone none found =
      let off = latest-none (starts_before new.employee_id new.effective_from) paid found in
      elim (prior_kept actor new n rows h own stays open_end after) [
        | inl (nothing, idle) ↦ sym (nothing f d)
        | inr (p, active, inside, before, there) ↦
            let off_p =
              All-Member (λ r. starts_before new.employee_id new.effective_from r ≡ false) paid
                (ended actor new n rows h own stays open_end after p) off there in
            absurd (ground arith)
      ]
  undone (some q) found =
      let e = new.employee_id in
      let x = new.effective_from in
      let whole = set_rows-IsPayroll actor new n rows h own stays open_end after in
      let holds = latest_holds (starts_before e x) paid q found in
      let inside_q = latest-Member (starts_before e x) paid q found in
      let forward = All-Member (λ r. is_backwards r ≡ false) paid q whole.forwards inside_q in
      let at_q = rate_of_Member f e q.effective_from (n + 1) paid q whole inside_q (ground arith) in
      let kept_q =
        set_rows-rate_on actor new n rows h own stays open_end after f fig e q.effective_from in
      let kept = set_rows-rate_on actor new n rows h own stays open_end after f fig e d in
      elim (prior_kept actor new n rows h own stays open_end after) [
        | inl (nothing, idle) ↦ let none_q = nothing f q.effective_from in absurd (ground arith)
        | inr (p, active, inside, before, there) ↦
            let last =
              All-Member (λ r. starts_before e x r ≡ true → r.effective_from ≤ q.effective_from)
                paid (ended actor new n rows h own stays open_end after p)
                (latest_starts_last (starts_before e x) paid q found) there (ground arith) in
            let p_at_q = rate_of_Member f e q.effective_from n rows p h inside (ground arith) in
            elim (Bool-cases (leb q.effective_from d)) [
              | inl started ↦
                  let p_at_d = rate_of_Member f e d n rows p h inside (ground arith) in ground arith
              | inr unstarted ↦ ground arith
            ]
      ]

  undone_all :
      (e : ℕ)
      → (if e == new.employee_id
          then after_deletion
              (find_previous_for_employee new.employee_id new.effective_from paid)
              d
              none
              (λ p. some (f p))
              (rate_on f e d paid)
          else rate_on f e d paid)
        ≡ rate_on f e d rows
  undone_all e =
      let pays = set_rows-rate_on actor new n rows h own stays open_end after f fig e d in
      let back = undone (find_previous_for_employee new.employee_id new.effective_from paid) refl in
      elim (Bool-cases (e == new.employee_id)) [
        | inl same ↦ let own_rows : e ≡ new.employee_id = ground arith in rw own_rows (ground arith)
        | inr other ↦ ground arith
      ]

module _ (divisor : ℕ) (input : SetPayInput) (db : Db)
    (h : IsPayroll db.next_id db.compensations) where
  -- Where the table is in order (`IsPayroll`), deleting the row that a valid
  -- `create` has just added succeeds, and every figure of every employee's pay on every date is
  -- again what it was before.
  pub create_undone :
      (i j : Instant) (by : Option ℕ) (rate : PayRate)
      → from_input divisor input.monthly_salary input.hourly_rate ≡ ok rate
      → input.effective_from ≤ i.today
      → starts_after_prior input.employee_id input.effective_from db.compensations ≡ true
      → let made = create divisor i input db in
        let done = soft_delete j db.next_id by made.1 in
        (made.0 ≡ ok (new_row input rate db))
        × (done.0 ≡ ok tt)
        × ((f : CompensationRecord → ℕ)
            → IsFigure f
            → (e : ℕ) (d : Date)
            → rate_on f e d done.1.compensations ≡ rate_on f e d db.compensations)
  unfolding find_by_id with_pay
  create_undone i j by rate valid past started =
      let row = new_row input rate db in
      let whole =
        set_rows-IsPayroll input.created_by row db.next_id db.compensations h refl refl refl
          started in
      let there =
        set_rows-Member input.created_by row db.next_id db.compensations h refl refl refl started in
      let found =
        find-own_key (λ r. r.id) (λ r. is_none r.deleted_at)
          (set_rows input.created_by row db.compensations) row whole.distinct there
          (ground arith) in
      let reopens =
        soft_delete_reopens j by (with_pay input rate db) whole db.next_id row found refl in
      rw (create_call divisor input db h i rate valid past started) (
        refl,
        reopens.0,
        λ f fig e d.
            reopens.3 f fig e d
            ∙ undone_all input.created_by row db.next_id db.compensations h refl refl refl started f
                fig d e,
      )
